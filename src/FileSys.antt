-- ===== src/FileSys.antt =====
-- The Nachos file system: nachos-3.4/code/filesys.
pub mod FileHeader
pub mod Names
pub mod OpenFile
pub mod FileSystem
pub mod OpenTable
pub mod Image
pub mod Directory
