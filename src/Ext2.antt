-- ===== src/Ext2.antt =====
-- src/fs/ext2/ext2.cpp: the ext2 driver over a block device.
pub mod Bytes
pub mod Superblock
pub mod Types
pub mod Codec
pub mod Device
pub mod Blocks
pub mod Alloc
pub mod Index
pub mod Entry
pub mod Dir
pub mod Places
pub mod Stored
pub mod Tables
pub mod Search
pub mod Taken
pub mod Slots
pub mod Found
pub mod Insert
pub mod Inserted
pub mod Listed
pub mod Entered
pub mod Insertion
mod Ram
mod Tests
pub mod Volume
pub mod Transfer
pub mod Names
