-- ===== src/Vsfs.antt =====
-- The file system of ostep-homework-master/file-implementation/vsfs.py.
--
-- A list of fixed length is a function and its length; an address of -1 is `none`. A path is the list of
-- its names, the last first: '/' is the empty list. Each name is one number. The random choices of a
-- request are its arguments.
pub mod Bitmap
pub mod Block
pub mod Store
pub mod Requests
pub mod Alloc
pub mod Paths
pub mod Entries
pub mod Tree
pub mod Grown
pub mod Pruned
pub mod Disk
pub mod Views
pub mod Written
pub mod Unlinked
pub mod Deleted
pub mod Attached
pub mod Created
pub mod Directories
pub mod Files
pub mod Reached
pub mod Formatted
pub mod Tests
