-- ===== src/Vfs.antt =====
-- src/fs/vfs.h and vfs.cpp: block devices, mounts and open files over file system drivers.
pub mod Types
pub mod Paths
pub mod Mounts
pub mod Files
pub mod Longest
pub mod Descriptors
pub mod Normalize
pub mod Listing
pub mod Canonical
pub mod Rooted
pub mod Idempotent
pub mod Names
mod Tests
