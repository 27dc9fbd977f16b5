-- ===== src/Lib.antt =====
-- laminaFS: a file system abstraction with mounts, whose requests a thread of its own processes.
--
-- A client of a `FileContext` makes a request: a work item is allocated from a pool, filled, and
-- pushed into a ring buffer. The processing thread pops the item, looks for the mounts that serve
-- its path, calls their devices, and completes the item: it calls the item's callback and frees the
-- slot, or it notifies the clients that wait.
--
-- Prelude          lists with native indices, Boolean tests and bits
-- RingBuffer       src/util/RingBuffer.h: `init`, `push`, `pop`, `get_count` (`getCount`). What runs
--                  under the lock is one step. RingBuffer/Queue is the bounded queue that a ring
--                  buffer promises to be, RingBuffer/Run compares the two over sequences of calls.
-- PoolAllocator    src/util/PoolAllocator.h: `init` (the constructor), `alloc`, `free`.
--                  PoolAllocator/Slots says which slots are free.
-- Paths            src/FileContext.cpp, `normalizePath`, on the buffer that it rewrites.
--                  Paths/Canonical is the meaning of a normalised path, which Paths/Correct is about.
-- Types, Device    src/shared_types.h; src/FileContext.h, `FileContext::DeviceInterface`
-- Mounts           src/FileContext.cpp: `registerDeviceInterface`, `createMount`, `releaseMount`,
--                  `findNextMountAndPath` (`find_next`), `findMutableMountAndPath` (`find_mutable`)
-- WorkItem         src/FileContext.cpp: `lfs_work_item_t`, its accessors, `initWorkItem`
-- Processing       src/FileContext.cpp: the switch of `processingFunc` (`perform`)
-- Context          src/FileContext.cpp: `allocWorkItemCommon`, `releaseWorkItem`, the push of a work
--                  item, one turn of `processingFunc` (`turn`); Context/Requests has the functions
--                  that queue a request, Context/Create the constructor and the destructor.
--                  Context/System puts them together: the steps of clients that request, push and
--                  release items, of the thread, and of the client that changes the mounts, in any
--                  order; Context/System/Drain is the loop of the thread up to an empty queue, and
--                  Context/System/Outcome what its items come to without a queue or a pool. A turn
--                  is one step there; Context/Race is about what fits into the end of a turn.
-- Wakeup           src/util/Semaphore.h: `wait`, and how a push wakes the thread, as steps of the
--                  clients and of the thread in any order
-- Waiting          src/FileContext.cpp: `WaitForWorkItem` (`check`), and how the thread completes an
--                  item and notifies, as steps in any order
-- Shutdown         src/FileContext.cpp: `startProcessingThread`, `stopProcessingThread` and the loop of
--                  `processingFunc`, as steps in any order
-- Blocks           src/FileContext.cpp, src/util and `lfs_context_destroy`: the blocks that a context
--                  takes from its allocator, from its creation to its destruction
-- CApi             src/laminaFS_c.cpp: the C functions that queue a request; CApi/Contexts those for
--                  contexts, mounts and work items
-- Directory        src/device/Directory.cpp, as it is compiled for POSIX: the operations on a directory of
--                  the host (Files: `readFile`, `writeFile`; Removal: `deleteFile`, `createDir`,
--                  `deleteDir`). The calls of the system are a parameter, Directory/Calls; what POSIX
--                  documents of them is stated in Directory/Laws.
--                  Directory/Interface are these operations as the context registers them, and
--                  Directory/Mounted and Directory/RoundTrip put them under the processing thread.
--                  Directory/Windows is the same for Windows, over Directory/Windows/Calls and what is
--                  documented of it, Directory/Windows/Laws.
--
-- Pointers are addresses, 0 is the null pointer. A function that the client supplies (a device's
-- functions) is a parameter, `none` where it is null; the state of the devices is a type `W`. A
-- result `none` is a fault: an access out of bounds, a call of a null function, or a loop that runs
-- out of fuel. The loops of `normalizePath` have one more unit of fuel than the path has bytes, the
-- loops over the mounts one more than there are mounts: a round of the one moves on in the path, a
-- round of the other passes a mount. The fuel of the loops that repeat an interrupted call
-- bounds the interruptions, that of `deleteDir` the entries of the traversal, and that of the
-- thread's loop the queued items.
-- Arithmetic on `uint32_t` and `uint64_t` is taken modulo 2 ^ 32 and 2 ^ 64.
--
-- Not modelled: logging; the freeing of the paths in src/device/Directory.cpp; the storage of the
-- vectors; allocation that fails, but for the buffer of `readFile` in src/device/Directory.cpp. A
-- callback is a number, and what it does to the item is not modelled.
pub mod Prelude
pub mod RingBuffer
pub mod Types
pub mod Device
pub mod Directory
pub mod Mounts
pub mod WorkItem
pub mod Processing
pub mod Context
pub mod Paths
pub mod PoolAllocator
pub mod CApi
pub mod Wakeup
pub mod Shutdown
pub mod Blocks
pub mod Waiting
