-- ===== src/Prelude/Texts.antt =====
-- Text as a list of code points, with the tests and slices that the program makes of `&str`.
use Prim.Native.Nat.{ℕ, ◌+◌}
use Prim.Native.Char.{code}
use Prim.Native.String.{String}
use mathlib.Core.Path.{◌≡◌}
use mathlib.Core.Logic.{◌↔◌}
use mathlib.Core.Bool.{Bool, true, false, ◌&&◌, ◌||◌}
use mathlib.Core.Option.{Option, none, some}
use mathlib.Core.List.{List, [], ◌∷◌, ◌++◌, reverse}
use native.Mathlib.Omega.{arith}
use ahk_wayland.Prelude.Tests.{◌==◌, leb, if◌then◌else◌}

abbrev pub Text : Type 0
Text = List ℕ

-- The code points of a literal. `String` has its own `[]` and `∷`.
abbrev pub text : String → Text
text String.[] = []
text (String.◌∷◌ c s) = code c ∷ text s

abbrev pub text_eq : Text → Text → Bool
text_eq [] [] = true
text_eq (a ∷ s) (b ∷ t) = a == b && text_eq s t
text_eq _ _ = false

pub text_eq_iff : (s t : Text) → (text_eq s t ≡ true) ↔ (s ≡ t)
text_eq_iff [] [] = ground arith
text_eq_iff [] (b ∷ t) = ground arith
text_eq_iff (a ∷ s) [] = ground arith
text_eq_iff (a ∷ s) (b ∷ t) = ground (arith, text_eq_iff s t)

-- `str::strip_prefix`
abbrev pub strip_prefix : Text → Text → Option Text
strip_prefix [] s = some s
strip_prefix (p ∷ ps) [] = none
strip_prefix (p ∷ ps) (c ∷ s) = if p == c then strip_prefix ps s else none

-- `str::strip_suffix`
abbrev pub strip_suffix : Text → Text → Option Text
strip_suffix p s = elim (strip_prefix (reverse p) (reverse s)) [
  | none ↦ none
  | some r ↦ some (reverse r)
]

abbrev pub starts_with : Text → Text → Bool
starts_with p s = elim (strip_prefix p s) [ none ↦ false | some _ ↦ true ]

abbrev pub ends_with : Text → Text → Bool
ends_with p s = starts_with (reverse p) (reverse s)

-- `haystack.contains(needle)`
abbrev pub has_substring : Text → Text → Bool
has_substring needle [] = starts_with needle []
has_substring needle (c ∷ s) = starts_with needle (c ∷ s) || has_substring needle s

-- `char::to_ascii_lowercase`
abbrev pub to_ascii_lowercase : ℕ → ℕ
to_ascii_lowercase c = if leb b'A' c && leb c b'Z' then c + 32 else c

-- `str::eq_ignore_ascii_case`
abbrev pub eq_ignore_ascii_case : Text → Text → Bool
eq_ignore_ascii_case [] [] = true
eq_ignore_ascii_case (a ∷ s) (b ∷ t) =
    to_ascii_lowercase a == to_ascii_lowercase b && eq_ignore_ascii_case s t
eq_ignore_ascii_case _ _ = false

-- `char::is_whitespace`: the White_Space property of Unicode.
abbrev pub is_whitespace : ℕ → Bool
is_whitespace c =
    (leb 9 c && leb c 13)
    || c == 32
    || c == 0x85
    || c == 0xa0
    || c == 0x1680
    || (leb 0x2000 c && leb c 0x200a)
    || c == 0x2028
    || c == 0x2029
    || c == 0x202f
    || c == 0x205f
    || c == 0x3000

-- `trim_start_matches`, `trim_matches` and `trim`.
abbrev pub trim_start_matches : (ℕ → Bool) → Text → Text
trim_start_matches p [] = []
trim_start_matches p (c ∷ s) = if p c then trim_start_matches p s else c ∷ s

abbrev pub trim_matches : (ℕ → Bool) → Text → Text
trim_matches p s = reverse (trim_start_matches p (reverse (trim_start_matches p s)))

abbrev pub trim : Text → Text
trim s = trim_matches is_whitespace s

abbrev pub is_quote : ℕ → Bool
is_quote c = c == 34 || c == 39

-- `split_whitespace`: `word` is the word being read.
abbrev pub push_word : Text → List Text → List Text
push_word [] ws = ws
push_word (c ∷ w) ws = (c ∷ w) ∷ ws

abbrev pub split_words : Text → Text → List Text
split_words word [] = push_word word []
split_words word (c ∷ s) =
    let ended = push_word word (split_words [] s) in
    let goes_on = split_words (word ++ c ∷ []) s in if is_whitespace c then ended else goes_on

abbrev pub split_whitespace : Text → List Text
split_whitespace s = split_words [] s

-- `split` at a character.
abbrev pub split_from : ℕ → Text → Text → List Text
split_from sep word [] = word ∷ []
split_from sep word (c ∷ s) =
    let ended = word ∷ split_from sep [] s in
    let goes_on = split_from sep (word ++ c ∷ []) s in if c == sep then ended else goes_on

abbrev pub split : ℕ → Text → List Text
split sep s = split_from sep [] s

-- The text behind the last `sep`, if there is one.
abbrev pub after_last : ℕ → Text → Option Text
after_last sep [] = none
after_last sep (c ∷ s) = elim (after_last sep s) [
  | some t ↦ some t
  | none ↦ if c == sep then some s else none
]

-- `String::len`, in bytes of UTF-8.
abbrev pub utf8_len : ℕ → ℕ
utf8_len c = if leb c 0x7f then 1 else if leb c 0x7ff then 2 else if leb c 0xffff then 3 else 4

abbrev pub byte_len : Text → ℕ
byte_len [] = 0
byte_len (c ∷ s) = utf8_len c + byte_len s
