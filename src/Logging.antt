-- ===== src/Logging.antt =====
-- private/logging/log_system.cpp: the log channels and what becomes of their messages. A channel's
-- name is a number for its text, and a message holds what the filters and the listeners look at.
pub mod Config
pub mod Histories
mod Tests
use Prim.Native.Nat.{bit_and}
use tge_core.Prelude.{
  ℕ, ◌==◌, ltb, Bool, true, false, not, List, [], ◌∷◌, ◌++◌, map, Option, none, some, if◌then◌else◌,
  length, keep_if,
}

-- `ELogLevel` and `ETarget` are masks of three bits.
abbrev pub level_all : ℕ
level_all = 7

abbrev pub terminal : ℕ
terminal = 1

abbrev pub file : ℕ
file = 2

abbrev pub listeners_target : ℕ
listeners_target = 4

abbrev pub max_messages : ℕ
max_messages = 1024

pub data MessageFormat : Type 0 where
  formatted raw : MessageFormat

pub record Message : Type 0 where
  pub timestamp : ℕ
  pub level : ℕ
  pub target : ℕ
  pub message : ℕ

pub record Listener : Type 0 where
  pub key : ℕ
  pub format : MessageFormat

-- A call of a listener.
pub record Delivery : Type 0 where
  pub key : ℕ
  pub format : MessageFormat
  pub message : Message

-- What is written at once.
pub data Output : Type 0 where
  before_init : ℕ → ℕ → Output
  to_terminal : Message → Output
  to_file : Message → Output

pub record Log : Type 0 where
  pub id : ℕ
  pub name : ℕ
  pub level_mask : ℕ
  pub listeners : List Listener
  pub pending_dispatch : List Message
  pub history : List Message

-- The state of `CLogSystem` and of the file's own variables.
pub record LogSystem : Type 0 where
  pub initialized : Bool
  pub enabled_targets : ℕ
  pub loggers : List Log
  pub listeners : List Listener

abbrev pub new_log : ℕ → ℕ → Log
new_log id name = record {
  id = id;
  name = name;
  level_mask = level_all;
  listeners = [];
  pending_dispatch = [];
  history = [];
}

-- `(a & b) != None`
abbrev pub shares : ℕ → ℕ → Bool
shares a b = not (bit_and a b == 0)

pub find_log : List Log → ℕ → Option Log
find_log [] id = none
find_log (l ∷ ls) id = if l.id == id then some l else find_log ls id

-- `emplace`, which keeps a channel that is there, and `erase`.
pub add_log : List Log → Log → List Log
unfolding find_log
add_log ls l = elim (find_log ls l.id) [ none ↦ ls ++ l ∷ [] | some other ↦ ls ]

pub remove_log : List Log → ℕ → List Log
remove_log ls id = keep_if (λ (l : Log). not (l.id == id)) ls

pub set_level_mask : Log → ℕ → Log
set_level_mask l level = record l { level_mask = level }

-- `SetLogLevel` on the channel of an id, and whether there is one.
pub set_level_of : List Log → ℕ → ℕ → List Log × Bool
unfolding set_level_mask
set_level_of [] id level = ([], false)
set_level_of (l ∷ ls) id level =
    let rest = set_level_of ls id level in
    if l.id == id then (set_level_mask l level ∷ ls, true) else (l ∷ rest.0, rest.1)

pub set_all_log_levels : List Log → ℕ → List Log
set_all_log_levels ls level = map (λ l. set_level_mask l level) ls

pub get_log_level : List Log → ℕ → ℕ
unfolding find_log
get_log_level ls id = elim (find_log ls id) [ none ↦ level_all | some l ↦ l.level_mask ]

pub get_channel_names : List Log → List ℕ
get_channel_names ls = map (λ (l : Log). l.name) ls

pub register_listener : Log → Listener → Log
register_listener l listener = record l { listeners = l.listeners ++ listener ∷ [] }

pub unregister_listener : Log → ℕ → Log
unregister_listener l key = record l {
  listeners = keep_if (λ (x : Listener). not (x.key == key)) l.listeners;
}

-- `Write` at the time `now`: the channel, and what is written.
pub write : LogSystem → Log → ℕ → ℕ → ℕ → ℕ → Log × List Output
write s l level target message now =
    if not s.initialized
    then (l, if shares level l.level_mask then before_init level message ∷ [] else [])
    else if shares level l.level_mask
    then (let effective = bit_and target s.enabled_targets in
        let msg : Message = record {
          timestamp = now;
          level = level;
          target = effective;
          message = message;
        } in
        let outputs =
          (if shares effective terminal then to_terminal msg ∷ [] else [])
          ++ (if shares effective file then to_file msg ∷ [] else []) in
        (
          if shares effective listeners_target
              then record l { pending_dispatch = l.pending_dispatch ++ msg ∷ [] }
              else l,
          outputs,
        ))
    else (l, [])

-- `while (m_history.size() > MaxMessages) m_history.pop_front()`
pub drop_oldest : List Message → List Message
drop_oldest [] = []
drop_oldest (m ∷ ms) =
    let rest = drop_oldest ms in if ltb max_messages (length (m ∷ ms)) then rest else m ∷ ms

abbrev pub deliver_to : Message → Listener → Delivery
deliver_to m listener = record { key = listener.key; format = listener.format; message = m }

-- The loop over the messages: the channel's listeners, and then those of the system.
pub deliver_all : List Listener → List Message → List Delivery
deliver_all listeners [] = []
deliver_all listeners (m ∷ ms) = map (deliver_to m) listeners ++ deliver_all listeners ms

pub dispatch_pending : LogSystem → Log → Log × List Delivery
unfolding drop_oldest deliver_all
dispatch_pending s l = (
  record l { pending_dispatch = []; history = drop_oldest (l.history ++ l.pending_dispatch) },
  deliver_all (l.listeners ++ s.listeners) l.pending_dispatch,
)

-- `FlushTo`: the history, to the first listener of the channel with the key.
pub find_listener : List Listener → ℕ → Option Listener
find_listener [] key = none
find_listener (x ∷ xs) key = if x.key == key then some x else find_listener xs key

pub flush_to : Log → ℕ → List Delivery
unfolding find_listener
flush_to l key = elim (find_listener l.listeners key) [
  | none ↦ []
  | some listener ↦ deliver_all (listener ∷ []) l.history
]
