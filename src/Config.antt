-- ===== src/Config.antt =====
-- src/config: the configuration as the event handler reads it.
pub mod Types
pub mod Keymap
pub mod Application
pub mod KeyNames
pub mod Shell
pub mod Convert
pub mod Deserialize
pub mod Load
