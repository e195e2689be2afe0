-- ===== src/Lib.antt =====
-- A model of the Weng-Shi OS kernel: the parts that hold its core logic, translated from the C++
-- source, with the theorems that make them correct.
--
-- Paths are those of the repository. Files and what they model:
--   Base           numbers, lists, words, bits, integers and byte-addressed memory
--   Pmm            src/mm/pmm.cpp: the bitmap of physical frames. `Pmm` is the object; initialising,
--                  marking regions, allocating and freeing are functions on it. Pmm/Bitmap
--                  counts the bits in use, Pmm/Alloc has the invariant and the search for a frame,
--                  Pmm/Region the regions, Pmm/Init the initial state
--   Libc           src/libc/string.cpp: memory and text routines over `Mem`, a function from
--                  addresses to bytes; Libc/Numbers has src/libc/stdlib.cpp over texts
--   Keyboard       src/drivers/keyboard/keyboard.cpp: scan codes and the ring of typed characters
--                  (Keyboard/Queue: the ring as a queue, Keyboard/Typing: the scan codes)
--   Clock          src/drivers/cmos/cmos.cpp and rtc.cpp: the fields of the real-time clock
--   Pic            src/arch/x86_64/pic.cpp: the mask registers as sixteen lines
--   Timer          src/arch/x86_64/timer.cpp: the tick counter and the sleeps
--   Terminal       src/drivers/vga/terminal.cpp: the screen and its cursor (Terminal/Scroll and
--                  Terminal/Advance: characters, Terminal/Digits: numbers)
--   Vfs            src/fs/vfs.cpp: Vfs/Types has the tables, Vfs/Paths resolvePath, Vfs/Mounts
--                  devices and mounts, Vfs/Files the descriptors
--                  (Vfs/Longest and Vfs/Descriptors: their laws), Vfs/Normalize and Vfs/Listing the
--                  normalising and listing of paths (Vfs/Canonical, Vfs/Rooted and Vfs/Idempotent: the
--                  paths that come out, Vfs/Names: the names listed)
--   Heap           src/mm/heap.cpp: the list of blocks. Heap/Chain says what a valid list is and what
--                  is handed out, Heap/Malloc is about the search, Heap/Grow and Heap/Extend about growing the
--                  heap, Heap/Alloc about kmalloc, Heap/Find, Heap/Merge and Heap/Free about kfree,
--                  Heap/Granted where the memory stands, Heap/Totals about the sums and the first heap
--   Vmm            src/mm/vmm.cpp: the page tables behind the recursive entry (Vmm/Window and
--                  Vmm/Places: where tables and entries stand, Vmm/Fill: new tables, Vmm/Ensure:
--                  ensureTable, Vmm/Walk and Vmm/Mapped: mapping, Vmm/Unmapped: unmapping)
--   Syscall        src/kernel/syscall.cpp: calls on descriptors, and the break of a task (Syscall/Pages,
--                  Syscall/Brk)
--   Tar            src/file_formats/tar/tar.cpp: the listing of an archive and the search for a file
--                  (Tar/Octal: numbers, Tar/Archive: archives as the format has them, Tar/Listed:
--                  the listing)
--   Elf            src/file_formats/elf/elf.cpp: the header and the arguments on a program's stack
--                  (Elf/Args: where they stand), Elf/Load the loader over the calls that it makes
--   Ext2           src/fs/ext2/ext2.cpp: Ext2/Types and Ext2/Superblock have the structs and their
--                  bytes, Ext2/Blocks the inodes and tables, Ext2/Alloc the bitmaps, Ext2/Index the blocks of an inode,
--                  Ext2/Entry and Ext2/Dir directories, Ext2/Volume mounting and paths,
--                  Ext2/Transfer reading and writing, Ext2/Names creating and removing. Ext2/Codec,
--                  Ext2/Places and Ext2/Stored: inodes on the disk; Ext2/Tables, Ext2/Search and Ext2/Taken:
--                  what an allocation leaves; Ext2/Slots, Ext2/Found, Ext2/Insert, Ext2/Inserted, Ext2/Listed,
--                  Ext2/Entered and Ext2/Insertion: a directory block as a list of entries
--   Printf         src/libc/printf.cpp on the screen (Printf/Radix: binary and octal, Printf/Typed:
--                  which arguments a format takes, Printf/Returns: what a call leaves)
--   Pci            src/drivers/pci/pci.cpp: configuration addresses (Pci/Address) and the enumeration
--                  of the bus (Pci/Found)
--   Scheduler      src/shed/scheduler.cpp: the ring of tasks. `Sched` holds the variables of the
--                  file; a `Task *` is a place in the order of creation. Switch has the timer tick,
--                  Calls has blocking, waking, killing and waiting, Create the creation of tasks
--
-- What is outside the source is an argument or a recorded effect: the answers of kmalloc and of
-- createAddressSpace are arguments of createTask, and the writes to the TSS, to cr3 and to the
-- keyboard focus, and the stacks handed to kfree, are fields of `Sched`. The keyboard's port byte and
-- the current task's id are arguments. A file system driver is a record of functions over the state
-- behind it, which the calls thread through; nothing is assumed of it. So is the mapping of a page for
-- the heap, a function over the state of the page tables. What the PCI data port answers is a function
-- of the address, and the variable arguments of printf are a list of texts and words.
--
-- A loop that only the data ends takes fuel and answers `none` when it runs out. The walk round the
-- ring has as much fuel as there are tasks; the loops over a text need more fuel than the text is
-- long, which is a hypothesis where it is needed. kmalloc calls itself at most once, after the heap has
-- grown, so fuel 2 is enough. What C++ leaves undefined is `none` too: kmalloc that grows a heap
-- without blocks, and a page table for which no frame is left. 64-bit words wrap, written as a remainder by
-- 2 ^ 64; pointers into an object do not reach the end of the address space.
--
--
-- The block device of the ext2 driver and its kmalloc are functions over a state behind them. The laws
-- of a device (Ext2/Device: a write that went well is read back, other sectors stay) are hypotheses,
-- which Ext2/Ram shows of a disk in memory.
--
-- Not modelled: the hardware setup and the entry code in assembly, device protocols (AHCI, serial,
-- power), the boot sequence, the shell, in syscall.cpp the dispatcher,
-- reading, listing, exec, spawn, exit and wait, and in tar.cpp the printing and extracting of the content.
pub mod Base
pub mod Clock
pub mod Elf
pub mod Ext2
pub mod Heap
pub mod Keyboard
pub mod Libc
pub mod Pci
pub mod Pic
pub mod Pmm
pub mod Printf
pub mod Scheduler
pub mod Syscall
pub mod Tar
pub mod Terminal
pub mod Timer
pub mod Vfs
pub mod Vmm
