-- ===== src/Lib.antt =====
-- A model of the strange-os kernel (src/kernel), of the library of its programs (src/stdlib) and of
-- the programs (src/user).
--
-- The kernel starts in src/kernel/kernel.c: it sets up the interrupts, the heap, the display,
-- the console, paging, the disk, the files, the root partition and its file system, loads the first
-- process, sets up the drivers and starts that process. From then on it runs in interrupts: keys, the disk and the system calls of the processes.
--
-- The parts, and the files that model them:
--   Heap      src/kernel/heap.c. The headers are records in a memory by address. kmalloc and kfree
--             turn one memory into the next. Heap.Wide is the allocator without bounds that
--             they are compared with.
--   Str       src/kernel/util/string.c, src/stdlib/string.c and streq of src/user/sh.c. An array is
--             a list of bytes; what leaves an array is `none`.
--   Disk.Mbr  src/kernel/disk/mbr.c and mbr.h: partition tables and sector addresses.
--   Disk.Ata  src/kernel/disk/ata.c and ata.h. A request gives the new static variables and the list
--             of what goes through the ports.
--   Dev       src/kernel/dev.c: the search for the root partition, over Disk.Mbr and Disk.Ata. A
--             kernel panic is a result.
--   Page      src/kernel/page.c: the page directory and tables, and what an address stands for.
--   Process   src/kernel/process.c, over Page: the stack of processes, exec and exit.
--   Vfs       src/kernel/fs/fs.c: nodes and dirents, the lookup in a directory, its listing and the
--             walk along a path. The callbacks of a file system are arguments.
--   File      src/kernel/fileio.c and the operations on open files of src/kernel/fs/fs.c: the table of
--             descriptors and the standard streams. A file system is a record of its operations;
--             the walk along a path is an argument.
--   Loader    src/kernel/elf.c and src/kernel/abin.c: the loaders of programs, over the bytes of a
--             file.
--   Syscall   src/kernel/syscall.c, over Process, File, Driver and Console: the system calls.
--   Driver    src/kernel/driver.c, over Str: the table of drivers.
--   Fat       src/kernel/fs/fat.c: the allocation table and its cache, the search for a free cluster,
--             and reading a file; Fat.Write writes a file and closes it, Fat.Dir reads a directory
--             and adds an entry, and Fat.Mount finds the layout of a volume.
--   Idt       src/kernel/idt.c: the descriptor table and the interrupt handlers.
--   Vga       src/kernel/video: the display, its font and its colours.
--   Console   src/kernel/kprint.c, over Vga: the text console and the keyboard.
--   Kernel    src/kernel/kernel.c and panic.c: the start, which puts the parts together.
--   Stdlib    src/stdlib/stdio.c: the formatted output of programs, over write; Stdlib.Calls is
--             src/stdlib/starch.c, the calls of programs, over Syscall.
--   User      src/user: the programs sh, init, cat, ls, echo and hexd, over a record of the system
--             calls; User.Machine fills it with the calls of Stdlib.Calls on the kernel.
--   Prelude   what the others share.
-- Each of these has child modules for its theorems, named for what they prove, and one with runs at
-- concrete data (Examples).
--
-- Loops of a known length are recursion on the rounds left. heap_find walks on fuel; more fuel than
-- the heap has blocks is enough, which the theorems about it show. ata_wait takes fuel for the
-- status bytes that it reads; the theorem about it gives the number that is enough. kgets and kbctl
-- run along a list of keys and give `none` where the code goes on waiting. The loops that follow
-- data on the disk (the clusters of a directory, the links of nodes) and those of the user
-- programs take the rounds left; the theorems about read_dir32, cat and hexd give the numbers that are
-- enough. A walk along a path takes as many rounds as the path has bytes.
--
-- A machine word is a natural number, with its wrap-around written out where the code can reach it.
-- Addresses are numbers. What an instruction does to the processor (cr0, cr3, sti, the ports) is
-- left out or is an event in a list. Opening and reading files are parameters of
-- Process, and so are a path's node and a program's file for Syscall.
--
-- size_t is a signed int (src/types.h); sizes are bit patterns, and comparisons of sizes are signed.
-- Fat takes the disk as sectors that are read and written as they are asked for: that
-- src/kernel/disk/ata.c cuts sector numbers to 28 bits, and that its handler takes the interrupt of a
-- write for one of the last read and reads into that buffer again, is in Disk.Ata only. The buffer of
-- an open file in Fat has the size of a cluster. Its writing is modelled, but no result is listed for it,
-- since these assumptions do not hold of the driver.
--
-- Not modelled: ext2 (src/kernel/fs/ext2.c) and the terminal of src/kernel/io/unistd.c, which the
-- Makefile of the kernel does not build; the program gfxtest; port input
-- and output (src/kernel/util.c) and the assembly.
pub mod Prelude
pub mod Heap
pub mod Str
pub mod Disk
pub mod Dev
pub mod Page
pub mod Process
pub mod Driver
pub mod Idt
pub mod Stdlib
pub mod User
pub mod Vga
pub mod Console
pub mod Vfs
pub mod Fat
pub mod Loader
pub mod File
pub mod Syscall
pub mod Kernel
