-- ===== src/Mm.antt =====
-- os/src/mm/memory_set.rs: the areas of an address space, the operations that change them, and what
-- these do to each of its pages.
pub mod Address
pub mod Table
pub mod Area
pub mod Space
pub mod Munmap
pub mod View
pub mod Mmap
pub mod Protect
mod Examples
