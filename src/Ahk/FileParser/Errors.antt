-- ===== src/Ahk/FileParser/Errors.antt =====
-- ahk/parser.rs: a line that opens the block of a hotkey.
use ahk_wayland.Prelude.{
  ℕ, ◌≡◌, refl, true, false, some, List, Text, text, trim, split_once, starts_with, ends_with,
  has_substring,
}
use ahk_wayland.Ahk.KeyCombo.{Combo, parse_key_combo}
use ahk_wayland.Ahk.Blocks.{is_skipped}
use ahk_wayland.Ahk.FileParser.{Library, FileState, definition_of, block_hotkey, file_line}
use ahk_wayland.Ahk.Parsed.{ok}

-- The line opens the block of a hotkey, whose keys are known.
pub record OpensBlock (to_lowercase : Text → Text) (line : Text) : Type 0 where
  pub not_skipped : is_skipped line ≡ false
  pub not_hotif : starts_with (text "#HotIf") line ≡ false
  pub not_hotstring : starts_with (text ":") line ≡ false
  pub is_hotkey : has_substring (text "::") line ≡ true
  pub opens : ends_with (text "::{") line ≡ true
  pub keys : Text
  pub rest : Text
  pub parts : split_once (text "::") (definition_of true line) ≡ some (keys, rest)
  pub combo : Combo
  pub keys_known : parse_key_combo to_lowercase (trim keys) ≡ ok combo

module _ (lib : Library) (fuel : ℕ) where
  pub file_line-block :
      (line : Text) (ls : List Text) (s : FileState)
      → OpensBlock lib.to_lowercase line
      → file_line fuel lib line ls s ≡ block_hotkey fuel lib line ls s
  unfolding file_line
  file_line-block line ls s o =
      rw (o.not_skipped, o.not_hotif, o.not_hotstring, o.is_hotkey, o.opens) refl
