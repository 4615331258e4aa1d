-- ===== src/Raid.antt =====
-- ostep-homework-master/file-raid/raid.py: how RAID levels 0, 1, 4 and 5 map the blocks of an array
-- to disks, and the accesses that a request turns into.
--
-- The chunk size is given in bytes (`convert`, which reads "4k", is not modelled). Times are in tenths
-- of a millisecond: the disks are made with a seek time of 10 ms and a transfer time of 0.1 ms.
-- `int(a / b)` is division on natural numbers, exact below 2^53. What is printed is the list
-- `physical` of accesses.
pub mod Disk
pub mod Layout
pub mod Requests
mod Tests
