-- ===== src/Cpu.antt =====
-- The CPU object of lib/include/emusa80535/emu8051.h: register numbers and masks, the state, and
-- the hooks that a host installs.
pub mod Regs
pub mod Masks
mod State
mod Hooks
pub use State.*
pub use Hooks.*
