-- ===== src/Tests.antt =====
-- Runs of the model at concrete states, and the theorems applied to them.
mod Machine
mod Core
mod Devices
mod Debug
mod Outcomes
mod Digest
mod Windows
mod Listing
mod Hex
