-- ===== src/Ipc.antt =====
-- os/src/ipc: System V inter-process communication.
pub mod Table
pub mod Msg
pub mod Shm
