-- ===== src/Ops.antt =====
-- The opcode handlers of opcodes.c, by family. A handler's ticks are those that the opcode takes
-- beyond its first machine cycle.
pub mod Flags
pub mod Arith
pub mod Logic
pub mod Rotate
pub mod Move
pub mod BitOps
pub mod Jump
pub mod Movx
pub mod Call
