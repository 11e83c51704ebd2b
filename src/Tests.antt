-- ===== src/Tests.antt =====
-- Runs on concrete inputs, and the theorems at such inputs.
mod Hashes
mod Inputs
mod Pictures
mod Interface
mod Files
mod Commands
mod Runs
mod Scans
