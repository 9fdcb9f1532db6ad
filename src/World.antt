-- ===== src/World.antt =====
-- What the program asks of code that is not its own: the window manager's client and the helper
-- program `kdotool`, the text case tables of the standard library, the `regex` crate, and the input
-- devices. The answers of the window manager may change between two queries, so the n-th query of
-- a run has its own answer.
use ahk_wayland.Prelude.{ℕ, Bool, Option, Text}

pub record World : Type 0 where
  -- cfg(feature = "kde")
  pub kde : Bool
  -- `WMClient::current_application` and `current_window`
  pub current_application : ℕ → Option Text
  pub current_window : ℕ → Option Text
  -- `kdotool getactivewindow getwindowclassname` and `getwindowname`
  pub kdotool_class : ℕ → Option Text
  pub kdotool_name : ℕ → Option Text
  -- `str::to_lowercase`
  pub to_lowercase : Text → Text
  -- `Regex::is_match`: the pattern, then the text
  pub is_match : Text → Text → Bool
