-- ===== src/Lib.antt =====
-- Models of the operating-system simulators under ostep-homework-master, each beside the theorems
-- that make it correct. The programs are independent of each other, and so are the seven parts; they
-- share only Prelude: lists, options, Boolean tests on ℕ, and `Result`, the value or the exception
-- of a Python call.
--
-- * Malloc (ostep-homework-master/vm-freespace/malloc.py): a free-list allocator. `Heap` holds the
--   fields of the class `malloc`; `init`, `malloc` and `free` are its methods; `Driver` is the loop
--   of the main program over a given list of operations. Malloc/Cover to Malloc/Align hold the
--   proofs, Malloc/Driver/Runs and Malloc/Driver/Whole those on whole runs.
-- * Raid (ostep-homework-master/file-raid/raid.py): Raid/Disk is the class `disk`; Raid/Layout the
--   mappings `bmap0` to `pmap5` of the class `raid`; Raid/Requests its fields and the requests
--   (`enqueue`, `enqueue0`, `enqueue1`, `enqueue45`, `doPartialWrite`, `go`). A request is a fold of
--   `do_single` over accesses, which calls `enqueue` of a disk. Raid/Requests/Plan states the accesses
--   that requests of RAID 0 and 1 come to, Raid/Requests/Writes those of RAID 4 and 5 from any mapping
--   of blocks, and Raid/Requests/Rotated those of a whole RAID 5 array.
-- * Ssd (ostep-homework-master/file-ssd/ssd.py): Ssd/Device holds the fields and the physical
--   operations of the class `ssd`, Ssd the translation layers with `read`, `write` and `trim`, and
--   Ssd/Collector `garbage_collect` and `upkeep`. Ssd/Sound has the invariant of the logging layer and
--   `view`, what reads return.
-- * Paging (ostep-homework-master/vm-beyondphys-policy/paging-policy.py): the page cache of the main
--   program. `Cache` holds the variables of its loop, `access` is the body of the loop and `run` the
--   loop over the trace; the random draws are the parameter `draw`. Paging/Removal to Paging/Recency
--   hold the proofs.
-- * X86 (ostep-homework-master/threads-locks/x86.py): a processor with threads. X86/Cpu is the class
--   `cpu` with its instructions, X86/Assembler its `getarg` and `load`, X86/Threads the classes
--   `process` and `proclist`, X86/Run the loop of `cpu.run`; X86/Turns to X86/Loaded hold the proofs.
--   Its numbers are those of Prelude/Int.
-- * Vsfs (ostep-homework-master/file-implementation/vsfs.py): a file system. Vsfs/Bitmap is the class
--   `bitmap`, Vsfs/Block the classes `block` and `inode`, Vsfs/Store the class `fs` with `createFile`,
--   `createLink`, `deleteFile` and `writeFile`, and Vsfs/Requests its calls `doAppend` to `doCreate`
--   and `run`. Vsfs/Disk states how bitmaps, inodes and blocks agree, Vsfs/Tree how paths and entries
--   do; Vsfs/Written to Vsfs/Formatted have the proofs for each call.
-- * Lottery (ostep-homework-master/cpu-sched-lottery/lottery.py): the loop of the main program that
--   solves a job list. `start` makes the list and its sums from the pairs of run time and tickets,
--   `State` holds the variables of the loop, `turn` is its body and `solve` the loop.
--   Lottery/Fair has the proofs.
--
-- Numbers are unbounded, as in Python, and every subtraction of the source that can fall below 0 is
-- written out. `int(a / b)` of the source is exact for the sizes that the programs take (below 2^53)
-- and is `a / b`. The times of raid.py, floats in the source, are counted in tenths of a millisecond.
-- A loop goes over a list or a range, but for these. That of CLOCK in Paging gets the sum of the
-- reference bits and one more as fuel, and each turn that finds no victim takes a bit away. `next` of
-- X86/Threads gets a turn for each place of the schedule, after which it has met them all. The run of
-- X86/Run gets as many turns as its caller gives, since a program need not halt; the run of
-- Vsfs/Requests ends when the requests it is given do.
--
-- Not modelled: option parsing, random workloads, printing, and the other simulators.
pub mod Prelude
pub mod Malloc
pub mod Raid
pub mod Ssd
pub mod Paging
pub mod X86
pub mod Vsfs
pub mod Lottery
