-- ===== src/Mount.antt =====
-- mtpmount/MountCommands.cpp and MountCommands.h: the store of mount points and the sub-commands of
-- the daemon.
pub mod Ids
pub mod Store
pub mod Commands
pub mod Unmounting
pub mod Listing
pub mod Wellformed
pub mod Letters
pub mod Gains
pub mod Invariant
pub mod Reachable
pub mod ByLetter
