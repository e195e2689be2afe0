-- ===== src/Libc.antt =====
-- src/libc: the freestanding string, memory and number routines of the kernel.
pub mod Memory
pub mod Strings
pub mod Numbers
mod Tests
