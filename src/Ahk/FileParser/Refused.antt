-- ===== src/Ahk/FileParser/Refused.antt =====
-- ahk/parser.rs, parse_file: a file with an `If` line in the block of a hotkey.
use ahk_wayland.Prelude.{
  ◌≡◌, true, false, Option, some, List, ◌∷◌, Text, text, trim, split_once, starts_with, ends_with,
  has_substring, ◌++◌, text_eq,
}
use ahk_wayland.Ahk.Types.{AhkAction, AhkHotkey, AhkHotstring}
use ahk_wayland.Ahk.KeyCombo.{Combo, parse_key_combo}
use ahk_wayland.Ahk.Blocks.{line_kind, is_skipped, closing}
use ahk_wayland.Ahk.FileParser.{Library, parse_hotstring}
use ahk_wayland.Ahk.Parsed.{ok}
use ahk_wayland.Ahk.Blocks.Read.{Body}
use ahk_wayland.Ahk.FileParser.Errors.{OpensBlock}
use ahk_wayland.Ahk.FileParser.Read
use ahk_wayland.Ahk.FileParser.Read.{IsLineHotkey}

-- The line is a hotkey, whose keys are known, and its brace stands on the next line.
pub record OpensNext (to_lowercase : Text → Text) (line : Text) : Type 0 where
  pub not_skipped : is_skipped line ≡ false
  pub not_hotif : starts_with (text "#HotIf") line ≡ false
  pub not_hotstring : starts_with (text ":") line ≡ false
  pub is_hotkey : has_substring (text "::") line ≡ true
  pub no_brace : ends_with (text "::{") line ≡ false
  pub keys : Text
  pub rest : Text
  pub parts : split_once (text "::") line ≡ some (keys, rest)
  pub combo : Combo
  pub keys_known : parse_key_combo to_lowercase (trim keys) ≡ ok combo

-- A line opens a block in the lines behind it, which begins at the last ones.
pub data Opens (to_lowercase : Text → Text) (line : Text) : List Text → List Text → Type 0 where
  here : (ls : List Text) → OpensBlock to_lowercase line → Opens to_lowercase line ls ls
  next :
      (brace : Text) (ls : List Text)
      → OpensNext to_lowercase line
      → text_eq (trim brace) (text "{") ≡ true
      → Opens to_lowercase line (brace ∷ ls) ls

-- Lines that the parser reads before it comes to others: comments, contexts, hotstrings and hotkeys
-- of all kinds, and lines of no known kind; and the context then.
pub data Before (lib : Library) : Option Text → List Text → Option Text → List Text → Type 0 where
  start : (context : Option Text) (ls : List Text) → Before lib context ls context ls
  skip :
      (context c : Option Text) (l : Text) (ls rest : List Text)
      → is_skipped (trim l) ≡ true
      → Before lib context ls c rest
      → Before lib context (l ∷ ls) c rest
  hotif :
      (context c : Option Text) (l : Text) (ls rest : List Text)
      → is_skipped (trim l) ≡ false
      → starts_with (text "#HotIf") (trim l) ≡ true
      → Before lib (lib.hotif_context (trim l)) ls c rest
      → Before lib context (l ∷ ls) c rest
  hotstring :
      (context c : Option Text) (l : Text) (h : AhkHotstring) (ls rest : List Text)
      → is_skipped (trim l) ≡ false
      → starts_with (text "#HotIf") (trim l) ≡ false
      → starts_with (text ":") (trim l) ≡ true
      → parse_hotstring lib (trim l) context ≡ some h
      → Before lib context ls c rest
      → Before lib context (l ∷ ls) c rest
  on_line :
      (context c : Option Text) (l : Text) (h : AhkHotkey) (ls rest : List Text)
      → IsLineHotkey lib context (trim l) ls h
      → Before lib context ls c rest
      → Before lib context (l ∷ ls) c rest
  unknown :
      (context c : Option Text) (l : Text) (ls rest : List Text)
      → is_skipped (trim l) ≡ false
      → starts_with (text "#HotIf") (trim l) ≡ false
      → starts_with (text ":") (trim l) ≡ false
      → has_substring (text "::") (trim l) ≡ false
      → Before lib context ls c rest
      → Before lib context (l ∷ ls) c rest
  block :
      (context c : Option Text) (l : Text) (body : List Text) (acts : List AhkAction) (last : Text)
      (ls rest : List Text)
      → OpensBlock lib.to_lowercase (trim l)
      → Body lib.to_lowercase body acts
      → line_kind (trim last) ≡ closing
      → Before lib context ls c rest
      → Before lib context (l ∷ (body ++ last ∷ ls)) c rest
