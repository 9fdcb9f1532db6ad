-- ===== src/Ahk/FileParser.antt =====
-- ahk/parser.rs, parse_file: a whole AutoHotkey file.
pub mod Errors
pub mod Read
pub mod Refused
pub mod Termination
use ahk_wayland.Prelude.{
  ℕ, zero, suc, Bool, true, false, ◌||◌, Option, none, some, List, [], ◌∷◌, ◌++◌, Text, text,
  text_eq, ◌==◌, trim, trim_end_matches, starts_with, ends_with, has_substring, has_char, lines,
  length, if◌then◌else◌,
}
use ahk_wayland.Ahk.Types.{AhkConfig, AhkHotkey, AhkHotstring}
use ahk_wayland.Ahk.Blocks.{is_skipped}
use ahk_wayland.Ahk.Hotkeys.{parse_hotkey, parse_multiline_hotkey}
use ahk_wayland.Ahk.Parsed.{Parsed, ok, err, out_of_fuel, ◌>>=◌}

-- The `regex` crate's answers on the two patterns of the parser, and `str::to_lowercase`.
pub record Library : Type 0 where
  pub to_lowercase : Text → Text
  -- the group of `#HotIf\s+(.+)`
  pub hotif_context : Text → Option Text
  -- the groups 2, 3 and 4 of the pattern of `parse_hotstring`: options, trigger and replacement
  pub hotstring_groups : Text → Option (Option Text × (Text × Text))

abbrev pub or_no_options : Option Text → Text
or_no_options none = []
or_no_options (some options) = options

abbrev pub hotstring_of : Option Text → Option (Option Text × (Text × Text)) → Option AhkHotstring
hotstring_of context none = none
hotstring_of context (some (group, (trigger, replacement))) =
    let options = or_no_options group in
    some (record {
      trigger = trigger;
      replacement = replacement;
      immediate = has_char b'*' options;
      case_sensitive = has_char b'C' options;
      omit_char = has_char b'O' options || has_char b'o' options;
      execute = has_char b'X' options || has_char b'x' options;
      context = context;
    })

unfoldable pub parse_hotstring : Library → Text → Option Text → Option AhkHotstring
parse_hotstring lib line context = hotstring_of context (lib.hotstring_groups line)

-- `current_context` and what is gathered, in the order of the file.
pub record FileState : Type 0 where
  pub context : Option Text
  pub hotkeys : List AhkHotkey
  pub hotstrings : List AhkHotstring

abbrev pub add_hotkey : Option AhkHotkey → FileState → FileState
add_hotkey none s = s
add_hotkey (some h) s = record s { hotkeys = s.hotkeys ++ h ∷ [] }

abbrev pub add_hotstring : Option AhkHotstring → FileState → Parsed FileState
add_hotstring none s = err
add_hotstring (some h) s = ok (record s { hotstrings = s.hotstrings ++ h ∷ [] })

-- A hotkey on one line must be one.
abbrev pub add_line_hotkey : Option AhkHotkey → FileState → Parsed FileState
add_line_hotkey none s = err
add_line_hotkey (some h) s = ok (add_hotkey (some h) s)

-- Whether the next line is an opening brace, and the lines behind it.
abbrev pub brace_next : List Text → Bool
brace_next [] = false
brace_next (l ∷ ls) = text_eq (trim l) (text "{")

abbrev pub drop_line : List Text → List Text
drop_line [] = []
drop_line (l ∷ ls) = ls

abbrev pub after_brace : Bool → List Text → List Text
after_brace same_line ls = if same_line then ls else drop_line ls

abbrev pub definition_of : Bool → Text → Text
definition_of same_line line =
    if same_line then trim (trim_end_matches (λ c. c == b'{') line) else line

unfoldable pub block_hotkey :
    ℕ → Library → Text → List Text → FileState → Parsed (FileState × List Text)
unfolding parse_multiline_hotkey
block_hotkey fuel lib line ls s = do
  let same_line = ends_with (text "::{") line
  (h, ls') ←
      parse_multiline_hotkey fuel lib.to_lowercase (definition_of same_line line)
        (after_brace same_line ls) s.context
  ok (add_hotkey h s, ls')

unfoldable pub line_hotkey : Library → Text → List Text → FileState → Parsed (FileState × List Text)
unfolding parse_hotkey
line_hotkey lib line ls s = do
  h ← parse_hotkey lib.to_lowercase line s.context
  s' ← add_line_hotkey h s
  ok (s', ls)

-- One line of the file, trimmed, with the lines behind it. The test for a bare `#HotIf` comes too
-- late to be met.
unfoldable pub file_line :
    ℕ → Library → Text → List Text → FileState → Parsed (FileState × List Text)
unfolding block_hotkey line_hotkey parse_hotstring
file_line fuel lib line ls s =
    if is_skipped line
    then ok (s, ls)
    else if starts_with (text "#HotIf") line
    then ok (record s { context = lib.hotif_context line }, ls)
    else if starts_with (text ":") line
    then (do s' ← add_hotstring (parse_hotstring lib line s.context) s; ok (s', ls))
    else if has_substring (text "::") line
    then (if ends_with (text "::{") line || brace_next ls
        then block_hotkey fuel lib line ls s
        else line_hotkey lib line ls s)
    else ok (s, ls)

-- The loop over the lines. Each turn takes a line at least, and costs a unit of fuel.
unfoldable pub file_lines : ℕ → Library → List Text → FileState → Parsed FileState
unfolding file_line
file_lines zero lib ls s = out_of_fuel
file_lines (suc fuel) lib [] s = ok s
file_lines (suc fuel) lib (l ∷ ls) s = do
  (s', ls') ← file_line fuel lib (trim l) ls s
  file_lines fuel lib ls' s'

abbrev pub no_entries : FileState
no_entries = record { context = none; hotkeys = []; hotstrings = [] }

unfoldable pub parse_file : Library → Text → Parsed AhkConfig
unfolding file_lines
parse_file lib content = do
  s ← file_lines (suc (length (lines content))) lib (lines content) no_entries
  ok (record { hotkeys = s.hotkeys; hotstrings = s.hotstrings })
