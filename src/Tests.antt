-- ===== src/Tests.antt =====
-- The components on concrete inputs.
pub mod Values
pub mod Names
pub mod Trees
pub mod Threads
pub mod Files
pub mod Caches
pub mod Requests
pub mod Wakeups
pub mod Mounts
pub mod Daemons
pub mod Dokans
pub mod Mountings
pub mod Moves
pub mod Objects
