-- ===== src/Prelude/Strings.antt =====
-- More of `&str`: lines, cuts at a text, joins, and unsigned numbers.
use Prim.Native.Nat.{ℕ, ◌+◌, ◌-◌, ◌*◌}
use mathlib.Core.Bool.{Bool, false, not, ◌&&◌, ◌||◌}
use mathlib.Core.Option.{Option, none, some}
use mathlib.Core.List.{List, [], ◌∷◌, ◌++◌, reverse}
use ahk_wayland.Prelude.Tests.{◌==◌, leb, if◌then◌else◌}
use ahk_wayland.Prelude.Texts.{Text, strip_prefix, trim_start_matches}

-- `trim_end_matches`
abbrev pub trim_end_matches : (ℕ → Bool) → Text → Text
trim_end_matches p s = reverse (trim_start_matches p (reverse s))

abbrev pub has_char : ℕ → Text → Bool
has_char c [] = false
has_char c (d ∷ s) = d == c || has_char c s

-- The texts before and after the first place of a text: `splitn(2, …)`, and `find` with the slice up
-- to there.
abbrev pub put_before : ℕ → Option (Text × Text) → Option (Text × Text)
put_before c none = none
put_before c (some (before, after)) = some (c ∷ before, after)

abbrev pub cut_here : Option Text → Option (Text × Text) → Option (Text × Text)
cut_here (some after) later = some ([], after)
cut_here none later = later

abbrev pub split_once : Text → Text → Option (Text × Text)
split_once sep [] = cut_here (strip_prefix sep []) none
split_once sep (c ∷ s) = cut_here (strip_prefix sep (c ∷ s)) (put_before c (split_once sep s))

abbrev pub split_rest : Text → Option (Text × Text) → List Text
split_rest s none = s ∷ []
split_rest s (some (before, after)) = before ∷ after ∷ []

-- `join`
abbrev pub join : Text → List Text → Text
join sep [] = []
join sep (s ∷ []) = s
join sep (s ∷ t ∷ rest) = s ++ (sep ++ join sep (t ∷ rest))

-- `str::replace` of one character.
abbrev pub replace_char : ℕ → Text → Text → Text
replace_char c by [] = []
replace_char c by (d ∷ s) =
    let rest = replace_char c by s in if d == c then by ++ rest else d ∷ rest

-- `str::lines`: without the ends of lines, "\n" or "\r\n"; an end of line at the end begins no line.
abbrev pub strip_return : Text → Text
strip_return s = elim (reverse s) [ [] ↦ [] | c ∷ r ↦ if c == 13 then reverse r else s ]

abbrev pub lines_from : Text → Text → List Text
lines_from line [] = elim line [ [] ↦ [] | c ∷ s ↦ (c ∷ s) ∷ [] ]
lines_from line (c ∷ s) =
    let ended = strip_return line ∷ lines_from [] s in
    let goes_on = lines_from (line ++ c ∷ []) s in if c == 10 then ended else goes_on

abbrev pub lines : Text → List Text
lines s = lines_from [] s

-- `parse::<u64>`: digits, perhaps behind a plus; none on an overflow.
abbrev pub max_u64 : ℕ
max_u64 = 18446744073709551615

abbrev pub digits_from : ℕ → Text → Option ℕ
digits_from n [] = some n
digits_from n (c ∷ s) =
    let m = n * 10 + (c - b'0') in
    let rest = digits_from m s in
    if not (leb b'0' c && leb c b'9') then none else if leb m max_u64 then rest else none

abbrev pub digits : Text → Option ℕ
digits [] = none
digits (c ∷ s) = digits_from 0 (c ∷ s)

abbrev pub parse_u64 : Text → Option ℕ
parse_u64 [] = none
parse_u64 (c ∷ s) = if c == b'+' then digits s else digits (c ∷ s)
