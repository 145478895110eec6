-- ===== src/Pipe.antt =====
-- os/src/fs/pipe.rs: the byte ring of a pipe, over 16 page frames.
pub mod Ring
pub mod Refine
pub mod Io
pub mod Write
pub mod Nonblock
pub mod Read
mod Examples
