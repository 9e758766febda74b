-- ===== src/Lib.antt =====
-- A model of the file system simulator, and what is proved about it.
--
-- The program keeps a small file system in one host file. `VirtualDisk` reads and writes blocks of 4096
-- bytes of that file; `CacheManager` keeps some of them in pages, with FIFO replacement and late
-- writing; `FreeBitmap` keeps which blocks are free, and loads and saves itself in block 0 through the
-- cache; `Directory` is a list of names with inode ids, stored as bytes; `INodeManager` and
-- `SimpleFileSystem` put files and directories on top; `SimpleScheduler` runs processes in turn on
-- threads of their own.
--
-- Files, with the code that each is about:
--   Disk       src/core/disk.h, src/core/disk.cpp: `VirtualDisk`. `open_disk` is `open`.
--   Cache      src/core/cache.h, src/core/cache.cpp: `CacheManager`. `cache_manager` is the
--              constructor; `evict`, `fetch`, `claim`, `install` and `store` are parts of
--              `get_free_page`, `read_block` and `write_block`. Cache/Refinement compares a cache with a
--              plain array of blocks.
--   Bitmap     src/core/bitmap.h, src/core/bitmap.cpp: `FreeBitmap`. Bitmap/Persist has `load`, `save` and
--              the `initialize` with a cache, there called `initialize_on`.
--   Directory  src/core/directory.h, src/core/directory.cpp: `DirectoryEntry` and `Directory`; the
--              field `type` is `kind`.
--   Paths      src/core/inode.cpp: `INodeManager::split_path`, `normalize_path` (`collapse_path`),
--              `is_valid_filename`, `calculate_blocks_needed`; src/filesystem.cpp:
--              `SimpleFileSystem::normalize_path`.
--   Commands   src/filesystem.cpp: `SimpleFileSystem::split_command`, and the choice of the
--              handler in `handle_command`.
--   INode      src/core/inode.h, src/core/inode.cpp: `INode`, the state of `INodeManager` with the cache
--              and the bitmap behind its pointers, `read_inode`, `write_inode`. `Action` is a call on that
--              state that may answer false.
--   Contents   src/core/inode.cpp: `read_inode_data`, `write_inode_data`, `resize_inode`, `read_file_data`,
--              `write_file_data` and the reading and writing of one block.
--   Tree       src/core/inode.cpp: the directory cache, `find_inode`, `resolve_path`, `create_inode`,
--              `delete_inode`, `create_root_directory`.
--   Files      src/core/inode.cpp: `create_file`, `create_directory`, `read_file`, `write_file`,
--              `delete_file`, `read_file_block`, `write_file_block`, `directory_exists`.
--   Listing    src/core/inode.h, src/core/inode.cpp: `FileInfo`, `get_file_info`, `list_directory`,
--              `delete_directory` and `delete_directory_recursive`.
--   FileSystem src/filesystem.cpp: `SimpleFileSystem::format`, `mount`, `unmount` and the operations with
--              their error codes. A `Volume` is the open files and the manager.
--   Shell      src/filesystem.cpp: the `cmd_` functions and `handle_command` (`run_command`).
--   Handles    src/filesystem.cpp: `open_file`, `close_file`, `is_file_protected`.
--   Scheduler  src/process/scheduler.h, src/process/scheduler.cpp: `SimpleScheduler`. `schedule_turn` is
--              one turn of `schedule_loop`, `complete` the section of `run_process` behind a task that
--              returned; the place of its iterator is an argument.
--   Sync       src/process/sync.h: `Semaphore` and `SpinLock`, each call one step.
--   Prelude    what the others share: lists, Boolean tests, texts, words, counts.
-- In each part the file of its name has the definitions, the files below it the proofs, and Tests runs
-- of both at concrete values.
--
-- Conventions. A method takes its object's state and gives the new one with its answer; an answer false
-- with an output that is then not set is `none`. Numbers of the type `uint32_t` are natural numbers with
-- the wrap at 2 ^ 32 written out; an `int` code below 0 is its pattern of 32 bits. Loops are structural
-- recursions on the list or on the number of rounds, so no fuel is needed, but for the search of a run of
-- blocks in Bitmap, whose fuel is the number of blocks, and the recursive deletion of a directory in
-- Listing: there the outcome `exhausted` stands for a recursion deeper than the fuel, since directories
-- that contain each other never end. A `std::string` is the list of its bytes. The device behind the host file is a
-- parameter: the blocks at which it fails, what the file holds, whether the host lets it be made.
-- Readings of the clock are arguments, one for all of a call; so are the bytes of memory that the code
-- copies without setting them. In Handles the inode id that `open_file` asks for is an argument, which
-- FileSystem gives.
--
-- Not modelled: the locks inside the disk, the table, the cache and the directory, since the calls are
-- taken one after the other; `ReadWriteLock` and `LockManager` of src/process/sync.h;
-- `SimpleScheduler::stop`; the catch block of `run_process`, but where `cleanup_finished_processes` waits
-- for it; what the bytes destroy that `FreeBitmap::load` writes behind a vector that is shorter than a
-- block, which `load` gives with the table and `mount` drops; the layout of all output, with `print_disk_usage` and `print_cache_status`; src/main.cpp, which is input and
-- output; the empty programs in tools.
pub mod Prelude
pub mod Disk
pub mod Cache
pub mod Bitmap
pub mod Directory
pub mod Paths
pub mod Commands
pub mod Handles
pub mod INode
pub mod Contents
pub mod Tree
pub mod Files
pub mod Listing
pub mod FileSystem
pub mod Shell
pub mod Scheduler
pub mod Sync
