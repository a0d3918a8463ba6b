-- ===== src/Memory.antt =====
-- private/memory: the category tracker, the counters that every allocator keeps, and the allocators.
-- An address is a number below 2 ^ 64, and `size_t` arithmetic wraps there. `std::malloc` is a
-- parameter of the constructors; `none` is the null pointer.
pub mod Tracking
pub mod Counters
pub mod Linear
pub mod Stack
pub mod Pool
pub mod FreeList
mod Tests
