-- ===== src/Config/Convert.antt =====
-- config/mod.rs: a hotkey of an AutoHotkey file as a keymap of the event handler. `none` is a panic.
pub mod Agreement
use ahk_wayland.Prelude.{
  ℕ, Bool, true, false, ◌||◌, Option, none, some, List, [], ◌∷◌, ◌++◌, Text, text, trim,
  has_substring, starts_with, join, map, ◌==◌, if◌then◌else◌,
}
use ahk_wayland.Key.{
  Key, key_leftctrl, key_rightctrl, key_leftalt, key_rightalt, key_leftshift, key_rightshift,
  key_leftmeta, key_rightmeta,
}
use ahk_wayland.Ahk.Types.{
  AhkAction, run, send, remap, sleep, shell, block, win_activate, win_close, if_win_active,
  win_wait_active, AhkActions, nil, cons, ElseActions, no_else, else_actions, AhkHotkey,
}
use ahk_wayland.Config.Types.{
  Modifier, shift, control, alt, windows, KeyPress, KeymapAction, ApplicationMatcher, OnlyOrNot,
  Keymap,
}
use ahk_wayland.Config.Shell.{ShellLibrary, kdotool_command, if_script}

unfoldable mutual
  pub needs_interpreter : AhkAction → Bool
  needs_interpreter (run parts) = false
  needs_interpreter (send keys) = true
  needs_interpreter (remap target_keys) = true
  needs_interpreter (sleep ms) = false
  needs_interpreter (shell script) = false
  needs_interpreter (block actions) = any_needs actions
  needs_interpreter (win_activate criteria) = false
  needs_interpreter (win_close criteria) = false
  needs_interpreter (if_win_active criteria then_actions els) =
      any_needs then_actions || else_needs els
  needs_interpreter (win_wait_active criteria timeout_ms) = true

  pub any_needs : AhkActions → Bool
  any_needs nil = false
  any_needs (cons a actions) = needs_interpreter a || any_needs actions

  pub else_needs : ElseActions → Bool
  else_needs no_else = false
  else_needs (else_actions actions) = any_needs actions

abbrev pub Converted : Type 0
Converted = Option (List KeymapAction)

abbrev pub launch_or_panic : Option (List Text) → Converted
launch_or_panic none = none
launch_or_panic (some cmd) = some (KeymapAction.launch cmd ∷ [])

abbrev pub shell_or_panic : Option Text → Converted
shell_or_panic none = none
shell_or_panic (some script) =
    some (KeymapAction.launch (text "/bin/sh" ∷ text "-c" ∷ script ∷ []) ∷ [])

abbrev pub extend : Converted → Converted → Converted
extend none later = none
extend (some xs) none = none
extend (some xs) (some ys) = some (xs ++ ys)

-- The command of `Run`, which has no first part to look at if it has none.
unfoldable pub shell_run_command : List Text → Option (List Text)
shell_run_command [] = none
shell_run_command (first ∷ rest) = some (
    if starts_with (text "http://") first || starts_with (text "https://") first
    then text "xdg-open" ∷ first ∷ []
    else text "/bin/sh" ∷ text "-c" ∷ join (text " ") (first ∷ rest) ∷ [])

unfoldable mutual
  unfolding shell_run_command kdotool_command if_script

  pub convert_actions_to_shell : ShellLibrary → AhkAction → Converted
  convert_actions_to_shell lib (run parts) = launch_or_panic (shell_run_command parts)
  convert_actions_to_shell lib (send keys) = some []
  convert_actions_to_shell lib (remap target_keys) = some []
  convert_actions_to_shell lib (sleep ms) = some (KeymapAction.sleep ms ∷ [])
  convert_actions_to_shell lib (shell script) = shell_or_panic (some (trim script))
  convert_actions_to_shell lib (block actions) = convert_all lib actions
  convert_actions_to_shell lib (win_activate criteria) =
      some (KeymapAction.launch (kdotool_command lib.kde (text "windowactivate") criteria) ∷ [])
  convert_actions_to_shell lib (win_wait_active criteria timeout_ms) = some []
  convert_actions_to_shell lib (win_close criteria) =
      some (KeymapAction.launch (kdotool_command lib.kde (text "windowclose") criteria) ∷ [])
  convert_actions_to_shell lib (if_win_active criteria then_actions els) =
      shell_or_panic (if_script lib criteria then_actions els)

  pub convert_all : ShellLibrary → AhkActions → Converted
  convert_all lib nil = some []
  convert_all lib (cons a actions) =
      extend (convert_actions_to_shell lib a) (convert_all lib actions)

unfoldable pub convert_actions : ShellLibrary → AhkAction → Converted
unfolding needs_interpreter convert_actions_to_shell
convert_actions lib action =
    if needs_interpreter action
    then some (KeymapAction.ahk_interpreted action ∷ [])
    else convert_actions_to_shell lib action

-- The answers of the `regex` crate: the group of `WinActive\("ahk_exe\s+([^"]+)"\)`, and that of
-- `WinActive\("([^"]+)"\)`.
pub record ContextLibrary : Type 0 where
  pub exe_of : Text → Option Text
  pub title_of : Text → Option Text

abbrev pub only_literal : Text → OnlyOrNot
only_literal s = record { only = some (ApplicationMatcher.literal s ∷ []); not = none }

unfoldable pub parse_ahk_context : ContextLibrary → Text → Option OnlyOrNot
parse_ahk_context lib context = elim (lib.exe_of context) [
  | none ↦ none
  | some s ↦ some (only_literal s)
]

-- The keymap's `application` and `window`.
abbrev pub context_filters : ContextLibrary → Option Text → Option OnlyOrNot × Option OnlyOrNot
context_filters lib none = (none, none)
context_filters lib (some context) =
    if has_substring (text "ahk_exe") context
    then (parse_ahk_context lib context, none)
    else (none, elim (lib.title_of context) [ none ↦ none | some s ↦ some (only_literal s) ])

unfoldable pub modifier_of_key : Key → Modifier
modifier_of_key k =
    if k == key_leftctrl || k == key_rightctrl
    then control
    else if k == key_leftalt || k == key_rightalt
    then alt
    else if k == key_leftshift || k == key_rightshift
    then shift
    else if k == key_leftmeta || k == key_rightmeta
    then windows
    else Modifier.key k

abbrev pub keymap_with : ContextLibrary → AhkHotkey → List KeymapAction → Keymap
keymap_with lib hotkey actions = record {
  remap =
      (record { key = hotkey.key; modifiers = map modifier_of_key hotkey.modifiers }, actions) ∷ [];
  application = (context_filters lib hotkey.context).0;
  window = (context_filters lib hotkey.context).1;
  device = none;
  mode = none;
  exact_match = true;
}

unfoldable pub convert_ahk_hotkey_to_keymap :
    ShellLibrary → ContextLibrary → AhkHotkey → Option Keymap
unfolding convert_actions parse_ahk_context modifier_of_key
convert_ahk_hotkey_to_keymap shell_lib lib hotkey = elim (convert_actions shell_lib hotkey.action) [
  | none ↦ none
  | some actions ↦ some (keymap_with lib hotkey actions)
]
