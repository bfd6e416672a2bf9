-- ===== src/Dispatch.antt =====
-- The two ways of opcodes.c to execute an opcode, and that they agree.
pub mod Table
pub mod Switch
pub mod Agree
