-- ===== src/Ahk/KeyCombo.antt =====
-- ahk/parser.rs, parse_key_combo: a hotkey's modifiers and key.
pub mod Read
use ahk_wayland.Prelude.{
  Bool, true, false, ◌||◌, Option, none, some, List, [], ◌∷◌, ◌++◌, ℕ, Text, text, ◌==◌, trim,
  split_once, if◌then◌else◌,
}
use ahk_wayland.Key.{Key}
use ahk_wayland.Ahk.SendParser.{modifier_of}
use ahk_wayland.Ahk.KeyNames.{string_to_key}
use ahk_wayland.Ahk.Parsed.{Parsed, ok, err, ◌>>=◌, ok_or_err}

-- Modifiers, the key, and `is_wildcard`.
pub record Combo : Type 0 where
  pub modifiers : List Key
  pub key : Key
  pub is_wildcard : Bool

-- The loop over the prefixes `~`, `*` and `$`.
abbrev pub is_prefix : ℕ → Bool
is_prefix c = c == b'~' || (c == b'*' || c == b'$')

unfoldable pub strip_prefixes : Bool → Text → Bool × Text
strip_prefixes wildcard [] = (wildcard, [])
strip_prefixes wildcard (c ∷ s) =
    let more = strip_prefixes (wildcard || (c == b'~' || c == b'*')) s in
    if is_prefix c then more else (wildcard, c ∷ s)

-- The loop over `^`, `!`, `+` and `#`: the four characters of `modifier_of`.
abbrev pub with_modifier : Text → Option Key → List Key × Text → List Key × Text
with_modifier s none (ks, rest) = ([], s)
with_modifier s (some k) (ks, rest) = (k ∷ ks, rest)

unfoldable pub strip_modifiers : Text → List Key × Text
unfolding modifier_of
strip_modifiers [] = ([], [])
strip_modifiers (c ∷ s) = with_modifier (c ∷ s) (modifier_of c) (strip_modifiers s)

abbrev pub push_known : List Key → Option Key → List Key
push_known ks none = ks
push_known ks (some k) = ks ++ k ∷ []

-- `split(" & ")` has two parts just if the text is there once. A modifier that is not known is dropped.
abbrev pub two_parts : Option (Text × Text) → Option (Text × Text)
two_parts none = none
two_parts (some (a, b)) = elim (split_once (text " & ") b) [ none ↦ some (a, b) | some _ ↦ none ]

abbrev pub combo_of : (Text → Text) → Bool → List Key → Text → Option (Text × Text) → Parsed Combo
combo_of to_lowercase wildcard ks rest (some (a, b)) = do
  k ← ok_or_err (string_to_key to_lowercase (trim b))
  ok (record {
    modifiers = push_known ks (string_to_key to_lowercase (trim a));
    key = k;
    is_wildcard = wildcard;
  })
combo_of to_lowercase wildcard ks rest none = do
  k ← ok_or_err (string_to_key to_lowercase (trim rest))
  ok (record { modifiers = ks; key = k; is_wildcard = wildcard })

unfoldable pub parse_key_combo : (Text → Text) → Text → Parsed Combo
unfolding strip_prefixes strip_modifiers
parse_key_combo to_lowercase combo =
    let (wildcard, s) = strip_prefixes false combo in
    let (ks, rest) = strip_modifiers s in
    combo_of to_lowercase wildcard ks rest (two_parts (split_once (text " & ") rest))
