-- ===== src/Daemon.antt =====
-- mtpmount/SubCommandLibrary.cpp, IPC.cpp and MtpMountEntry.cpp: the daemon and its controller.
pub mod Library
pub mod Ipc
pub mod Commands
