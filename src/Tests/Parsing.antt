-- ===== src/Tests/Parsing.antt =====
-- ahk/parser.rs on concrete lines and files.
use ahk_wayland.Prelude.{
  List, lines, ◌≡◌, ◌≢◌, refl, true, false, none, [], ◌∷◌, ◌++◌, Text, text, map,
  to_ascii_lowercase, strip_prefix,
}
use ahk_wayland.Key.{key_a, key_b, key_j, key_enter, key_leftctrl, key_leftalt, key_capslock}
use ahk_wayland.Ahk.Types
use ahk_wayland.Ahk.Types.{AhkAction, AhkConfig, AhkHotkey, block, remap, send, sleep}
use ahk_wayland.Ahk.Blocks.{Line, condition}
use ahk_wayland.Ahk.ActionParser.{parse_action}
use ahk_wayland.Ahk.ActionParser.Errors.{parse_action-err}
use ahk_wayland.Ahk.KeyCombo.{parse_key_combo}
use ahk_wayland.Ahk.KeyCombo.Read.{parse_key_combo-read}
use ahk_wayland.Ahk.FileParser.{Library, parse_file}
use ahk_wayland.Ahk.FileParser.Read.{Entries, IsLineHotkey, parse_file-Entries}
use ahk_wayland.Ahk.Blocks.Read.{Body}
use ahk_wayland.Ahk.Hotkeys.{parse_hotkey}
use ahk_wayland.Ahk.FileParser.Errors.{OpensBlock}
use ahk_wayland.Ahk.FileParser.Termination.{parse_file-ne-out_of_fuel}
use ahk_wayland.Ahk.Parsed.{ok, err, out_of_fuel}

abbrev pub lowercase : Text → Text
lowercase s = map to_ascii_lowercase s

-- A stand-in for the regex library: contexts are read, and no line is a hotstring.
abbrev pub library : Library
library = record {
  to_lowercase = lowercase;
  hotif_context = λ line. strip_prefix (text "#HotIf ") line;
  hotstring_groups = λ line. none;
}

abbrev pub sample : Text
sample = text "; sample\n^a::b\nCapsLock & j::{\n  Send x\n\n  Sleep 50\n}\n"

abbrev sample_config : AhkConfig
sample_config = record {
  hotkeys =
      record {
        modifiers = key_leftctrl ∷ [];
        key = key_a;
        action = remap (key_b ∷ []);
        context = none;
        is_wildcard = false;
      }
      ∷ record {
        modifiers = key_capslock ∷ [];
        key = key_j;
        action = block (
            Types.AhkActions.cons (send (text "x"))
              (Types.AhkActions.cons (sleep 50) Types.AhkActions.nil));
        context = none;
        is_wildcard = false;
      }
      ∷ [];
  hotstrings = [];
}

parse_file-sample : parse_file library sample ≡ ok sample_config
unfolding parse_file
parse_file-sample = refl

parse_file-ne-out_of_fuel_example : parse_file library sample ≢ out_of_fuel
parse_file-ne-out_of_fuel_example = parse_file-ne-out_of_fuel library sample

parse_action-err_example :
    (parse_action lowercase (text "WinActivate(" ++ text "\"Inbox, Mail\"" ++ text ")") ≡ err)
    × (parse_action lowercase (text "WinClose(" ++ text "\"Inbox, Mail\"" ++ text ")") ≡ err)
    × (parse_action lowercase (text "WinWaitActive(" ++ text "\"Firefox\", 5" ++ text ")") ≡ err)
parse_action-err_example =
    parse_action-err lowercase (text "\"Inbox, Mail\"") (text "\"Firefox\", 5") refl refl refl refl

parse_key_combo-read_example :
    parse_key_combo lowercase (text "~" ++ (text "^!" ++ text "Enter"))
    ≡ ok (record {
      modifiers = key_leftctrl ∷ key_leftalt ∷ [];
      key = key_enter;
      is_wildcard = true;
    })
unfolding ahk_wayland.Ahk.SendParser.modifier_of ahk_wayland.Ahk.KeyNames.string_to_key
parse_key_combo-read_example =
    parse_key_combo-read lowercase (text "~") (text "^!") (key_leftctrl ∷ key_leftalt ∷ []) b'E'
      (text "nter") key_enter (refl, tt) (refl, (refl, tt)) refl refl refl refl

caps_j-OpensBlock : OpensBlock lowercase (text "CapsLock & j::{")
unfolding parse_key_combo ahk_wayland.Ahk.KeyNames.string_to_key
caps_j-OpensBlock = record {
  not_skipped = refl;
  not_hotif = refl;
  not_hotstring = refl;
  is_hotkey = refl;
  opens = refl;
  keys = text "CapsLock & j";
  rest = [];
  parts = refl;
  combo = record { modifiers = key_capslock ∷ []; key = key_j; is_wildcard = false };
  keys_known = refl;
}

two_actions-Body :
    Body lowercase (text "  Send x" ∷ [] ∷ text "  Sleep 50" ∷ []) (send (text "x") ∷ sleep 50 ∷ [])
unfolding ahk_wayland.Ahk.Blocks.line_kind parse_action
two_actions-Body =
    Body.act (text "  Send x") (send (text "x")) (text "" ∷ text "  Sleep 50" ∷ []) (sleep 50 ∷ [])
      refl refl
      (Body.skip [] (text "  Sleep 50" ∷ []) (sleep 50 ∷ []) refl
        (Body.act (text "  Sleep 50") (sleep 50) [] [] refl refl Body.empty))

abbrev pub a_is_b : AhkHotkey
a_is_b = record {
  modifiers = key_leftctrl ∷ [];
  key = key_a;
  action = remap (key_b ∷ []);
  context = none;
  is_wildcard = false;
}

abbrev block_lines : List Text
block_lines = text "CapsLock & j::{" ∷ text "  Send x" ∷ [] ∷ text "  Sleep 50" ∷ text "}" ∷ []

ctrl_a-IsLineHotkey : IsLineHotkey library none (text "^a::b") block_lines a_is_b
unfolding parse_hotkey
ctrl_a-IsLineHotkey = record {
  not_skipped = refl;
  not_hotif = refl;
  not_hotstring = refl;
  is_hotkey = refl;
  no_block = refl;
  read = refl;
}

abbrev pub caps_j_hotkey : AhkHotkey
caps_j_hotkey = record {
  modifiers = key_capslock ∷ [];
  key = key_j;
  action = block (
      Types.AhkActions.cons (send (text "x"))
        (Types.AhkActions.cons (sleep 50) Types.AhkActions.nil));
  context = none;
  is_wildcard = false;
}

pub sample-Entries : Entries library none (lines sample) (a_is_b ∷ caps_j_hotkey ∷ []) []
unfolding ahk_wayland.Ahk.Blocks.line_kind caps_j-OpensBlock
sample-Entries =
    Entries.skip none (text "; sample") (text "^a::b" ∷ block_lines) (a_is_b ∷ caps_j_hotkey ∷ [])
      [] refl
      (Entries.line none (text "^a::b") a_is_b block_lines (caps_j_hotkey ∷ []) []
        ctrl_a-IsLineHotkey
        (Entries.block none (text "CapsLock & j::{") caps_j-OpensBlock
          (text "  Send x" ∷ [] ∷ text "  Sleep 50" ∷ []) (send (text "x") ∷ sleep 50 ∷ [])
          (text "}") [] [] [] two_actions-Body refl (Entries.end none)))

parse_file-Entries_example :
    parse_file library sample
    ≡ ok (record { hotkeys = a_is_b ∷ caps_j_hotkey ∷ []; hotstrings = [] })
parse_file-Entries_example =
    parse_file-Entries library sample (a_is_b ∷ caps_j_hotkey ∷ []) [] sample-Entries

-- An `If` behind an action in a block whose brace stands on a line of its own.
abbrev with_if : Text
with_if = text "^a::b\n^a::\n{\n  Send x\n  If WinActive(\"Mail\") {\n    Sleep 5\n  }\n}\n"

abbrev behind_if : List Text
behind_if = text "    Sleep 5" ∷ text "  }" ∷ text "}" ∷ []

abbrev opened : List Text
opened = text "{" ∷ text "  Send x" ∷ text "  If WinActive(\"Mail\") {" ∷ behind_if
