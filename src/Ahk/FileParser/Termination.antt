-- ===== src/Ahk/FileParser/Termination.antt =====
-- ahk/parser.rs, parse_file: the fuel that it is given is enough for any text.
use ahk_wayland.Prelude.{
  ℕ, zero, suc, ◌≤◌, ◌≢◌, Bool, true, false, Option, none, some, List, [], ◌∷◌, Text, text, trim,
  length, arith, lines, ends_with, starts_with, has_substring, if◌then◌else◌, ◌||◌,
}
use ahk_wayland.Ahk.Types.{AhkHotkey, AhkHotstring}
use ahk_wayland.Ahk.Blocks.{is_skipped}
use ahk_wayland.Ahk.Blocks.Termination.{Leaves}
use ahk_wayland.Ahk.Hotkeys.{parse_hotkey, parse_multiline_hotkey}
use ahk_wayland.Ahk.Hotkeys.Termination.{parse_hotkey-HasFuel, parse_multiline_hotkey-Ensures}
use ahk_wayland.Ahk.FileParser.{
  Library, FileState, add_hotstring, add_line_hotkey, parse_hotstring, after_brace, definition_of,
  brace_next, block_hotkey, line_hotkey, file_line, file_lines, no_entries, parse_file,
}
use ahk_wayland.Ahk.Parsed.{Parsed, ok, err, out_of_fuel, Ensures, Ensures-bind, HasFuel}

after_brace-length :
    (same_line : Bool) (ls : List Text) → length (after_brace same_line ls) ≤ length ls
after_brace-length true ls = omega arith
after_brace-length false [] = omega arith
after_brace-length false (l ∷ ls) = omega arith

block_hotkey-Ensures :
    (n : ℕ) (lib : Library) (line : Text) (ls : List Text) (s : FileState)
    → length ls ≤ n
    → Ensures (Leaves (length ls)) (block_hotkey (suc n) lib line ls s)
unfolding block_hotkey
block_hotkey-Ensures n lib line ls s p =
    let same_line = ends_with (text "::{") line in
    let ls1 = after_brace same_line ls in
    let q : length ls1 ≤ length ls = after_brace-length same_line ls in
    Ensures-bind (Leaves (length ls1)) (Leaves (length ls))
      (parse_multiline_hotkey (suc n) lib.to_lowercase (definition_of same_line line) ls1 s.context)
      _
      (parse_multiline_hotkey-Ensures n lib.to_lowercase (definition_of same_line line) ls1
        s.context (omega arith))
      (λ r q2. omega arith)

add_line_hotkey-HasFuel : (h : Option AhkHotkey) (s : FileState) → HasFuel (add_line_hotkey h s)
add_line_hotkey-HasFuel none s = tt
add_line_hotkey-HasFuel (some h) s = tt

add_hotstring-HasFuel : (h : Option AhkHotstring) (s : FileState) → HasFuel (add_hotstring h s)
add_hotstring-HasFuel none s = tt
add_hotstring-HasFuel (some h) s = tt

line_hotkey-Ensures :
    (lib : Library) (line : Text) (ls : List Text) (s : FileState)
    → Ensures (Leaves (length ls)) (line_hotkey lib line ls s)
unfolding line_hotkey
line_hotkey-Ensures lib line ls s =
    Ensures-bind (λ h. Unit) (Leaves (length ls)) (parse_hotkey lib.to_lowercase line s.context) _
      (parse_hotkey-HasFuel lib.to_lowercase line s.context)
      (λ h u.
        Ensures-bind (λ s'. Unit) (Leaves (length ls)) (add_line_hotkey h s) _
          (add_line_hotkey-HasFuel h s) (λ s' u. omega arith))

Ensures-if {ℓ} :
    {A : Type ℓ} (P : A → Type 0) (b : Bool) (m n : Parsed A)
    → Ensures P m
    → Ensures P n
    → Ensures P (if b then m else n)
Ensures-if P true m n h k = h
Ensures-if P false m n h k = k

file_line-Ensures :
    (n : ℕ) (lib : Library) (line : Text) (ls : List Text) (s : FileState)
    → length ls ≤ n
    → Ensures (Leaves (length ls)) (file_line (suc n) lib line ls s)
unfolding file_line
file_line-Ensures n lib line ls s p =
    let P : FileState × List Text → Type 0 = Leaves (length ls) in
    let same : length ls ≤ length ls = omega arith in
    Ensures-if P (is_skipped line) _ _ same (
      Ensures-if P (starts_with (text "#HotIf") line) _ _ same (
        Ensures-if P (starts_with (text ":") line) _ _
          (Ensures-bind (λ s'. Unit) P (add_hotstring (parse_hotstring lib line s.context) s) _
            (add_hotstring-HasFuel _ s) (λ s' u. same))
          (Ensures-if P (has_substring (text "::") line) _ _
            (Ensures-if P (ends_with (text "::{") line || brace_next ls) _ _
              (block_hotkey-Ensures n lib line ls s p) (line_hotkey-Ensures lib line ls s))
            same)))

-- A unit of fuel for each line, and one more.
file_lines-HasFuel :
    (n : ℕ) (lib : Library) (ls : List Text) (s : FileState)
    → length ls ≤ n
    → HasFuel (file_lines (suc n) lib ls s)
unfolding file_lines
file_lines-HasFuel n lib [] s p = tt
file_lines-HasFuel zero lib (l ∷ ls) s p = absurd (omega arith)
file_lines-HasFuel (suc n) lib (l ∷ ls) s p =
    Ensures-bind (Leaves (length ls)) (λ s'. Unit) (file_line (suc n) lib (trim l) ls s) _
      (file_line-Ensures n lib (trim l) ls s (omega arith))
      (λ r q. file_lines-HasFuel n lib r.1 r.0 (omega arith))

HasFuel-ne-out_of_fuel {ℓ} : {A : Type ℓ} (r : Parsed A) → HasFuel r → r ≢ out_of_fuel
HasFuel-ne-out_of_fuel (ok a) h = cc
HasFuel-ne-out_of_fuel err h = cc
HasFuel-ne-out_of_fuel out_of_fuel h = absurd h

-- Whatever the regex library answers, parsing a file ends for every text, in a configuration or in
-- an error: the fuel of one unit for each line, and one more, is enough for all loops, those of
-- nested blocks included.
pub parse_file-ne-out_of_fuel :
    (lib : Library) (content : Text) → parse_file lib content ≢ out_of_fuel
unfolding parse_file
parse_file-ne-out_of_fuel lib content = HasFuel-ne-out_of_fuel _ (
    Ensures-bind (λ s. Unit) (λ c. Unit)
      (file_lines (suc (length (lines content))) lib (lines content) no_entries) _
      (file_lines-HasFuel (length (lines content)) lib (lines content) no_entries (omega arith))
      (λ s u. tt))
