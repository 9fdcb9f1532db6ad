-- ===== src/Ahk/KeyCombo/Read.antt =====
-- ahk/parser.rs, parse_key_combo: which hotkey a string of prefixes, modifiers and a key name means.
use ahk_wayland.Prelude.{
  ℕ, ◌≡◌, refl, ap, ◌∙◌, Bool, true, false, ◌||◌, none, some, List, [], ◌∷◌, ◌++◌, Text, text, ◌==◌,
  arith, All, any, trim, split_once,
}
use ahk_wayland.Key.{Key}
use ahk_wayland.Ahk.SendParser.{modifier_of}
use ahk_wayland.Ahk.SendParser.Tokens.{AreModifiers}
use ahk_wayland.Ahk.KeyNames.{string_to_key}
use ahk_wayland.Ahk.KeyCombo.{
  is_prefix, strip_prefixes, strip_modifiers, combo_of, two_parts, parse_key_combo,
}
use ahk_wayland.Ahk.Parsed.{ok}

-- The prefixes that make a wildcard of a hotkey.
abbrev pub is_wild : ℕ → Bool
is_wild c = c == b'~' || c == b'*'

modifier-is_prefix : (c : ℕ) (k : Key) → modifier_of c ≡ some k → is_prefix c ≡ false
unfolding modifier_of
modifier-is_prefix c k h = ground arith

strip_prefixes-read :
    (ps : Text) (w : Bool) (c : ℕ) (s : Text)
    → All (λ p. is_prefix p ≡ true) ps
    → is_prefix c ≡ false
    → strip_prefixes w (ps ++ c ∷ s) ≡ ((w || any is_wild ps), c ∷ s)
unfolding strip_prefixes
strip_prefixes-read [] w c s h hc = rw hc (ground arith)
strip_prefixes-read (p ∷ ps) w c s h hc =
    rw (h.0, strip_prefixes-read ps (w || is_wild p) c s h.1 hc) (ground arith)

strip_modifiers-read :
    (ms : Text) (ks : List Key) (c : ℕ) (s : Text)
    → AreModifiers ms ks
    → modifier_of c ≡ none
    → strip_modifiers (ms ++ c ∷ s) ≡ (ks, c ∷ s)
unfolding strip_modifiers
strip_modifiers-read [] [] c s h hc = rw hc refl
strip_modifiers-read [] (k ∷ ks) c s h hc = absurd h
strip_modifiers-read (m ∷ ms) [] c s h hc = absurd h
strip_modifiers-read (m ∷ ms) (k ∷ ks) c s h hc =
    rw (h.0, strip_modifiers-read ms ks c s h.1 hc) refl

known :
    (to_lowercase : Text → Text) (w : Bool) (ks : List Key) (rest : Text) (k : Key)
    → split_once (text " & ") rest ≡ none
    → string_to_key to_lowercase (trim rest) ≡ some k
    → combo_of to_lowercase w ks rest (two_parts (split_once (text " & ") rest))
      ≡ ok (record { modifiers = ks; key = k; is_wildcard = w })
known to_lowercase w ks rest k one found = rw (one, found) refl

-- The first character behind the prefixes, if there is one, is no prefix.
behind_prefixes :
    (ps : Text) (w : Bool) (ms : Text) (ks : List Key) (c : ℕ) (s : Text)
    → All (λ p. is_prefix p ≡ true) ps
    → AreModifiers ms ks
    → is_prefix c ≡ false
    → strip_prefixes w (ps ++ (ms ++ c ∷ s)) ≡ ((w || any is_wild ps), ms ++ c ∷ s)
behind_prefixes ps w [] ks c s h hm hc = strip_prefixes-read ps w c s h hc
behind_prefixes ps w (m ∷ ms) [] c s h hm hc = absurd hm
behind_prefixes ps w (m ∷ ms) (k ∷ ks) c s h hm hc =
    strip_prefixes-read ps w m (ms ++ c ∷ s) h (modifier-is_prefix m k hm.0)

-- Prefixes, then modifier characters, then the name of a key that begins with none of either and
-- has no " & ", are read as that key with just those modifiers, in their order, and as a wildcard
-- exactly when `~` or `*` is among the prefixes.
pub parse_key_combo-read :
    (to_lowercase : Text → Text) (ps ms : Text) (ks : List Key) (c : ℕ) (s : Text) (k : Key)
    → All (λ p. is_prefix p ≡ true) ps
    → AreModifiers ms ks
    → is_prefix c ≡ false
    → modifier_of c ≡ none
    → split_once (text " & ") (c ∷ s) ≡ none
    → string_to_key to_lowercase (trim (c ∷ s)) ≡ some k
    → parse_key_combo to_lowercase (ps ++ (ms ++ c ∷ s))
      ≡ ok (record { modifiers = ks; key = k; is_wildcard = any is_wild ps })
unfolding parse_key_combo
parse_key_combo-read to_lowercase ps ms ks c s k h hm hc hn one found =
    ap
      (λ (r : Bool × Text).
        combo_of to_lowercase r.0 (strip_modifiers r.1).0 (strip_modifiers r.1).1
          (two_parts (split_once (text " & ") (strip_modifiers r.1).1)))
      (behind_prefixes ps false ms ks c s h hm hc)
    ∙ ap
        (λ (r : List Key × Text).
          combo_of to_lowercase (any is_wild ps) r.0 r.1 (two_parts (split_once (text " & ") r.1)))
        (strip_modifiers-read ms ks c s hm hn)
    ∙ known to_lowercase (any is_wild ps) ks (c ∷ s) k one found
