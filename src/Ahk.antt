-- ===== src/Ahk.antt =====
-- src/ahk: AutoHotkey actions, and how they become actions of the event handler.
pub mod Types
pub mod SendParser
pub mod PassThrough
pub mod SendActions
pub mod Interpreter
pub mod Escape
pub mod KeyNames
pub mod Parsed
pub mod Criteria
pub mod KeyCombo
pub mod ActionParser
pub mod Blocks
pub mod Hotkeys
pub mod FileParser
pub mod Transpiler
