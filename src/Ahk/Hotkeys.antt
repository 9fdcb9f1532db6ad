-- ===== src/Ahk/Hotkeys.antt =====
-- ahk/parser.rs, parse_hotkey and parse_multiline_hotkey: a hotkey on one line, and one with a block.
pub mod Termination
use ahk_wayland.Prelude.{
  ℕ, Bool, true, false, Option, none, some, List, [], ◌∷◌, ◌++◌, Text, text, trim, split_once,
}
use ahk_wayland.Ahk.Types
use ahk_wayland.Ahk.Types.{AhkAction, AhkHotkey, block, send, if_win_active, else_actions}
use ahk_wayland.Ahk.PassThrough.{pass_through}
use ahk_wayland.Ahk.Criteria.{parse_window_criteria}
use ahk_wayland.Ahk.KeyCombo.{Combo, parse_key_combo}
use ahk_wayland.Ahk.ActionParser.{parse_action}
use ahk_wayland.Ahk.Blocks.{Block, from_list, statements}
use ahk_wayland.Ahk.Parsed.{Parsed, ok, err, out_of_fuel, ◌>>=◌, ok_or_err}

-- What is before a comment.
abbrev pub before_comment : Text → Option (Text × Text) → Text
before_comment s none = s
before_comment s (some (before, comment)) = before

-- Under a context the action is taken where the window is active; elsewhere the hotkey is passed on.
unfoldable pub in_context : Option Text → Combo → AhkAction → Parsed AhkAction
unfolding parse_window_criteria pass_through
in_context none combo action = ok action
in_context (some context) combo action = do
  criteria ← parse_window_criteria context
  send_str ← ok_or_err (pass_through combo.modifiers combo.key)
  ok (
      if_win_active criteria (from_list (action ∷ []))
        (else_actions (from_list (send send_str ∷ []))))

abbrev pub hotkey_of : Combo → AhkAction → Option Text → AhkHotkey
hotkey_of combo action context = record {
  modifiers = combo.modifiers;
  key = combo.key;
  action = action;
  context = context;
  is_wildcard = combo.is_wildcard;
}

abbrev pub hotkey_parts :
    (Text → Text) → Option Text → Option (Text × Text) → Parsed (Option AhkHotkey)
hotkey_parts to_lowercase context none = ok none
hotkey_parts to_lowercase context (some (definition, rest)) = do
  let s = trim rest
  combo ← parse_key_combo to_lowercase (trim definition)
  action ← parse_action to_lowercase (before_comment s (split_once (text " ;") s))
  final_action ← in_context context combo action
  ok (some (hotkey_of combo final_action none))

unfoldable pub parse_hotkey : (Text → Text) → Text → Option Text → Parsed (Option AhkHotkey)
unfolding parse_key_combo parse_action in_context
parse_hotkey to_lowercase line context =
    hotkey_parts to_lowercase context (split_once (text "::") line)

-- One action stands for itself.
abbrev pub as_one : List AhkAction → AhkAction
as_one (a ∷ []) = a
as_one acts = block (from_list acts)

-- The hotkey, and the lines behind its block. Its context is kept, not used.
abbrev pub multiline_parts :
    ℕ
    → (Text → Text)
    → Option Text
    → List Text
    → Option (Text × Text)
    → Parsed (Option AhkHotkey × List Text)
multiline_parts fuel to_lowercase context ls none = ok (none, ls)
multiline_parts fuel to_lowercase context ls (some (definition, rest)) = do
  combo ← parse_key_combo to_lowercase (trim definition)
  (acts, ls') ← statements fuel to_lowercase false 1 [] ls
  ok (some (hotkey_of combo (as_one acts) context), ls')

unfoldable pub parse_multiline_hotkey :
    ℕ → (Text → Text) → Text → List Text → Option Text → Parsed (Option AhkHotkey × List Text)
unfolding parse_key_combo statements
parse_multiline_hotkey fuel to_lowercase hotkey_def ls context =
    multiline_parts fuel to_lowercase context ls (split_once (text "::") hotkey_def)
