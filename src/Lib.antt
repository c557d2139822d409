-- ===== src/Lib.antt =====
-- mtpmount: media devices as drives of Windows.
--
-- A daemon mounts the storage of a device (MTP) as a drive with a letter. The controller (mtpmount/)
-- sends it command lines. The callbacks of the drive (dokanconnect/) ask a cache of files
-- (mtpcache/FileCache.cpp) for a local copy; the cache enqueues requests to pull and to push files at
-- the worker thread of the connection (mtpcache/ConnectionSync.cpp), which alone talks to the device
-- (mtpaccess/AbstractConnection.cpp over a file system: that of MTP, or that of the tests).
--
-- Files and what they model:
--   Base: lists, texts, tests, `std::map`, printed numbers; Base/Assoc has the laws of a map.
--   Path: mtpaccess/Utils.cpp, `CaseInsensitiveWstring` and `FsPath` (`parse_path` is the
--     constructor, `full_path` is getFullPath, `lt_path` is `operator<`).
--   Hash: mtpaccess/Utils.cpp, `ConflictlessHashProvider` (`get_hash` is getHash).
--   Token: mtpaccess/Utils.cpp, tokenize, and the command that mtpmount/MtpMountEntry.cpp builds.
--   Words: mtpaccess/Utils.cpp, splitLongInteger and timeConvert.
--   RwSync: mtpaccess/Utils.cpp, `ParalellReadUniqueWriteSync`, as a step relation on n threads.
--   Fs: mtpaccess/TestFileSystem.cpp, the tree of files and directories, as a value.
--   Drive: mtpaccess/AbstractConnection.cpp, the operations of `AbstractMappableDrive` on that tree.
--   Entry: mtpcache/FileCache.cpp, `FileTableEntry`, one cached file, and its callbacks;
--     Entry/Tracked adds versions of the content, and the steps of its clients and of the worker.
--   Cache: mtpcache/FileCache.cpp, `FileCache`, the map of the cached files; Cache/TableKey its keys,
--     Cache/Sync its sweeps (`general_time_based_sync`) and `_mustMove`, Cache/Reachable the steps of
--     a cache, Cache/Move its moveOrRenameInode over the device.
--   Connection: mtpcache/ConnectionSync.cpp, the queues; Connection/Handlers the worker thread;
--     Connection/Wakeup how it sleeps and is woken, as a step relation;
--     Connection/TestDevice fills its interface `Device` with the operations of Drive.
--   Provider: mtpaccess/ConnectionProvider.cpp, the devices and the connections that are open.
--   Mount: mtpmount/MountCommands.cpp. Mount/Ids the numbers of storages, Mount/Store the connections
--     and their drives (`ActiveConnection`, `MountAddressStore`), Mount/Commands, Mount/Unmounting and
--     Mount/Listing the sub-commands, Mount/Reachable the stores that they lead to.
--   Daemon: Daemon/Library is mtpmount/SubCommandLibrary.cpp with daemonMain, Daemon/Commands the
--     sub-commands it has, Daemon/Ipc the messages of mtpmount/IPC.cpp.
--   Dokan: dokanconnect/DokanDriveWrapper.cpp, the callbacks of a drive over `Services`, the calls that
--     they make. Dokan/Create has DokanCreateFile, Dokan/Handlers most others, Dokan/Sizes what tells
--     Windows about files; Dokan/Backend fills `Services` with Cache and Connection;
--     Dokan/Mounting has the threads that mount and unmount, as a step relation.
--   Tests: all of it on concrete inputs.
--
-- State is passed on: an operation takes the state last and returns the new one, with its result
-- behind it. A failure is `none` or `false`, as in the source. Locks and waits are modelled in RwSync,
-- Connection/Wakeup and Dokan/Mounting: elsewhere the methods of the cache and of the connection are single steps,
-- as their locks make them, but generalTimeBasedSync, which has two locks: what other threads do
-- between them is a parameter (`between`). moveOrRenameInode is one call after another (`settle` is
-- what the pushes that it waits for do).
--
-- Bounds and fuel. getHash searches with fuel, since the source may search for ever; one round more
-- than attempts that fail is enough. Loops over lists are recursion on them. `interrupted` gives what
-- a sweep reads in its interrupt flag at each turn. Counts and drive numbers are natural numbers or
-- integers without overflow; splitLongInteger and timeConvert have the words of 32 and 64 bits.
--
-- Parameters: `towupper` of the C library, `std::hash`, what the system clock says, the function
-- objects of a discovery, the operations of a device where the worker uses them, and the host of the
-- mount commands: the portable device manager, Dokan, the letters that Windows has, and UTF-8.
--
-- Not modelled: the portable device API (mtpaccess/MtpTransfer.cpp), the start of the daemon, the
-- moving of nodes on the device, and the background job of the cache. The callbacks have discoveries
-- and the move of a node as parameters, and what happens while an access waits (`serve`).
-- CopyDirectoryContent is used nowhere. Between the end of a lock of an entry and the request that
-- follows no other thread is interleaved.
pub mod Base
pub mod Path
pub mod Provider
pub mod Dokan
pub mod Mount
pub mod Daemon
pub mod Token
pub mod Hash
pub mod Words
pub mod Fs
pub mod Drive
pub mod RwSync
pub mod Entry
pub mod Cache
pub mod Connection
pub mod Tests
