-- ===== src/Lib.antt =====
-- A model of tge-core, a library of engine services in C++, and what holds of it. Paths are those of
-- the repository.
--
-- Modules.antt, Modules/Version.antt and Modules/Graph.antt model public/tge/module/module.hpp,
-- public/tge/module/version.hpp and private/module/module_graph.cpp: what a module declares, and
-- the order in which the modules of a run context initialize. `resolve` is `CModuleGraph::Resolve`,
-- `validate` its first loop, `count_waiting` the counters of pending dependencies, `place_all` the
-- `while` loop with `next_ready` and `settle` as its inner loops. The loop runs on as much fuel as
-- there are modules, since each round places one. The children of Modules/Graph.antt hold the
-- counting of dependencies, the search for a ready module, the invariant of the loop, its rounds,
-- the order, the cycles, the validation and the result.
--
-- Memory.antt has the allocators: Memory/Tracking.antt is private/memory/tracking.cpp,
-- Memory/Counters.antt public/tge/memory/tracked_allocator.hpp, Memory/Linear.antt,
-- Memory/Stack.antt and Memory/Pool.antt the files private/memory/*_allocator.cpp of those names.
-- Addresses and sizes are numbers below 2 ^ 64 with the wrap-around written out; `malloc` is a
-- parameter, and memory that the code writes is a function from addresses. The walk along the free
-- objects of a pool runs on as much fuel as the pool has objects. Memory/FreeList.antt is the
-- free-list allocator: the chain of free blocks is a list, the allocation headers are words in memory,
-- and what becomes of a word that is overwritten in part is a parameter.
--
-- Events.antt models private/events/system.cpp. What the code of a handler does to the system is a
-- parameter of an emission, so a handler may subscribe, unsubscribe and queue while it runs;
-- Events/Changes.antt has handlers whose code is a list of such changes.
-- Handles wrap at 2 ^ 64, and a theorem that needs fresh handles says so; counts of entries that are
-- in memory do not wrap.
-- Command.antt models private/command: the tokenizer, the groups of commands, their dispatch and what
-- the memory tracker is told of them. A callback is a number, and a run yields the calls it makes.
-- Process/CommandLine.antt models private/process/command_line.cpp, with the rules by which a C
-- runtime reads a command line in Process/CommandLine/Reading.antt.
--
-- Runtime.antt models private/module/runtime.cpp, on top of the module graph: registration, the
-- schedule of frames, initialization, termination. A module's code is whether its initialization
-- succeeds, and what the runtime does to modules is the list of the calls it makes.
--
-- Threading/JobGroup.antt models the state of private/threading/job_group.cpp that threads share:
-- Threading/JobGroup/Steps.antt has the atomic steps that they take, in any order; reading the flags
-- of a cancellation and starting the body of a job are two of them.
-- Threading/SerialJobQueue.antt models public/tge/threading/serial_job_queue.hpp, one function for
-- each region under its mutex, in any order too; `worker_loop` is the worker left to itself.
-- Threading/EventLoop.antt models private/threading/event_loop.cpp and its state. What the code of a
-- callback asks of the loop is a parameter, a list of operations, as is whether the system takes a
-- waitable. `run_timers` is the loop of `RunDueTimers`; its fuel is one more than the timers there
-- are, since each turn runs one of them, and what callbacks schedule waits.
--
-- Logging.antt models the channels of private/logging/log_system.cpp and Logging/Config.antt its
-- configuration file. A channel's name is a number, text is a list of character codes, and the hash
-- by which channels are found is a parameter. Logging/Config/Lines.antt says what the lines of such
-- a file mean, and Logging/Config/Parse.antt that they are read so.
--
-- Net/Ipv4.antt models private/net/parse_ipv4.cpp, one function for each round of its loop.
--
-- Elsewhere the functions of one component run under one lock, so a call is one step of its state.
-- Prelude.antt and its children hold the lists, words and tests that all of them share.
--
-- Not modelled: the operating system's files, sockets, processes and threads, the text of log
-- messages, floating-point mathematics, tests and benchmarks.
pub mod Prelude
pub mod Logging
pub mod Modules
pub mod Memory
pub mod Events
pub mod Process
pub mod Command
pub mod Threading
pub mod Net
pub mod Runtime
