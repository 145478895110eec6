-- ===== src/Signal.antt =====
-- os/src/process/signal: sets of signals and of pending signals (state.rs), the choice and the delivery
-- of a signal (delivery.rs), and the frame that a handler runs on (frame.rs, for RISC-V).
pub mod Flags
pub mod Frame
pub mod Handler
pub mod Delivery
pub mod Choice
pub mod Wake
pub mod Return
mod Examples
pub mod Bits
pub mod Pending
