-- ===== src/Handler.antt =====
-- event_handler.rs: the event handler, one module for each of its concerns.
pub mod State
pub mod Modifiers
pub mod MultiPurpose
pub mod Matching
pub mod Lookup
pub mod Dispatch
pub mod Typing
pub mod OnEvent
pub mod PressedKeys
pub mod Relative
pub mod Lifetime
pub mod Buffer
pub mod Scan
pub mod Asked
pub mod Nested
pub mod Idle
pub mod Passthrough
