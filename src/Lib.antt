-- ===== src/Lib.antt =====
-- HanaCore: a model of the parts of the kernel that keep state, with the theorems about them.
--
-- The parts. kernel/mem hands out memory: bump_alloc.cpp gives pages upwards from the end of the
-- kernel, pma.cpp counts in pages, heap.cpp keeps a free list and grows by pages. kernel/tty has the
-- pseudo terminals (pty.cpp) and the virtual terminals (tty.cpp), which feed them. kernel/userland
-- has the tables of open files (fdtable.cpp) and the system calls on them (syscalls.cpp).
-- kernel/scheduler has the tasks, each with such a table. kernel/filesystem/vfs.cpp hands paths to
-- the file systems by a table of mounts; kernel/userland/users.cpp has the users, and
-- kernel/userland/elf_loader.cpp loads programs. kernel/filesystem/hanafs.cpp keeps files in memory
-- with an image of them on a disk, kernel/filesystem/fat32.cpp has volumes on a disk or in the image
-- of a boot module, and kernel/drivers/keyboard.cpp makes characters of scan codes.
-- kernel/libs/libc.c is the C library that they all use.
--
-- Which file models which part:
--   Mem/Bump        kernel/mem/bump_alloc.cpp, pma.cpp and vmm.cpp: `bump_ptr` is an argument and a
--                   result; `Boot` has what the linker and the boot loader set.
--   Mem/Heap        kernel/mem/heap.cpp: the free list is a list of blocks (address and size), and
--                   the blocks in use are kept beside it, as their headers stay in memory. A failed
--                   `kfree` is a pointer that was not handed out.
--   Mem/Interface   what the other parts ask of the heap, with the heap as one instance.
--   Tty/Rbuf        `struct rbuf` of kernel/tty/pty.cpp.
--   Tty/Pty         the table of pairs and `pty_vt_map` of kernel/tty/pty.cpp.
--   Tty/Vt          kernel/tty/tty.cpp. The keyboard is a function that the poll takes.
--   Fd              kernel/userland/fdtable.cpp and fdtable.hpp.
--   Syscall         kernel/userland/syscalls.cpp: WRITE and READ; Syscall/Descriptors has OPEN,
--                   CLOSE, LSEEK, DUP2 and PIPE. The file system is a record of the functions used.
--   Scheduler       kernel/scheduler/scheduler.cpp and scheduler.hpp: the circular list is a list
--                   from `task_list` on; Scheduler/Create has the making of tasks over an interface
--                   to memory, Scheduler/Exit the end of a task, SYS_EXIT and the wait for a task.
--   Vfs             kernel/filesystem/vfs.cpp. The file systems are a record of their functions.
--   Hanafs          kernel/filesystem/hanafs.cpp: Hanafs/Path has the paths, Hanafs/Image the image on
--                   a disk, Hanafs/Entries the loops over the list of entries, Hanafs/Files the calls.
--                   A disk is an interface with a law, as kernel/drivers/ide.cpp does port I/O.
--   Fat32           kernel/filesystem/fat32.cpp: the table in its copies, allocation and chains, over
--                   the same disk. Fat32/Table shows it as a map, Fat32/Chain has the chains,
--                   Fat32/Module the volumes in a module's image, and Fat32/Name the short names.
--                   Fat32/Directory has the entries of directories, Fat32/Files the calls on paths,
--                   Fat32/Files/Content writing and reading, Fat32/Files/Open the opening of a
--                   path and Fat32/Files/Listing the listing of a directory. The number of the
--                   root cluster is an argument.
--   Storage         HanaFS behind kernel/filesystem/ramfs.cpp, the VFS and the system calls: the calls
--                   of kernel/userland/syscalls.cpp on paths.
--   Keyboard        kernel/drivers/keyboard.cpp, over the terminals of Tty/Vt.
--   Users           kernel/userland/users.cpp and users.hpp.
--   Elf             kernel/userland/elf_loader.cpp. The blob is a function from offsets to bytes; the
--                   result has the list of copies into the image.
--   Libc            kernel/libs/libc.c: Libc and Libc/Text over a memory of bytes, Libc/Number and
--                   Libc/Format on the bytes before the NUL.
--   Prelude         texts, tests, lists, signed integers, machine words, arrays read as rings.
--
-- Numbers. Addresses, sizes and `size_t` counters are natural numbers with the wrap at 2^64 written
-- out; an `unsigned` wraps at 2^32; an `int` that can be negative is an integer. A pointer is an
-- address, 0 or `none` when it is null. A text is the list of its bytes before the NUL. A signed
-- overflow, which C leaves undefined, gives no result in Libc/Format, and wraps as in the machine in
-- SYS_LSEEK and in the offset of a program header.
--
-- Bounds and fuel. A walk along a chain of clusters of FAT32 takes fuel, one for each cluster and one
-- for the end, as a chain on a disk may be a circle; the writing of a file takes rounds, one for each
-- cluster that it allocates, and a walk along a path one for each byte of the path, which has no more
-- components. A loop of the C library that runs to a NUL takes fuel, one for each byte it reads; with
-- fuel for the text and its NUL it ends. The freeing of a chain takes fuel, one for each cluster. The
-- wait for a task takes fuel for its rounds, as it may not end. The search for a task follows a
-- circle; its fuel counts the tasks visited, and one round is enough for a task that is there. All
-- other loops are structural recursion. Hypotheses on sizes say that an address or a counter stays
-- below its width.
--
-- Not modelled: in FAT32 mounting, also that of another drive by a listing, and the messages and
-- reports of progress; the other file systems below the VFS; the mount of an ISO image by HanaFS; the
-- other drivers and the shell; in the scheduler the switch of stacks, the trampolines and the memory
-- of tasks that is given back; in the system calls `execve` and `waitpid`; logging.
pub mod Elf
pub mod Fat32
pub mod Fd
pub mod Hanafs
pub mod Keyboard
pub mod Libc
pub mod Mem
pub mod Prelude
pub mod Scheduler
pub mod Storage
pub mod Syscall
pub mod Tty
pub mod Users
pub mod Vfs
