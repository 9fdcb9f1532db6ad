-- ===== src/Tests.antt =====
-- Runs of the model on concrete input.
pub mod Fixtures
pub mod Keys
pub mod Typing
pub mod Values
pub mod Clients
pub mod Commands
pub mod Devices
pub mod Tables
pub mod Parsing
pub mod Loading
pub mod Writing
