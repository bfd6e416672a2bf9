-- ===== src/Debug.antt =====
-- The debugger's own logic around the processor: events, watches, outcomes and decoded windows.
pub mod Event
pub mod Watch
pub mod Table
pub mod Bus
pub mod Outcome
pub mod Page
pub mod Decode
