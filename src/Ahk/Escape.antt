-- ===== src/Ahk/Escape.antt =====
-- ahk/parser.rs, unescape_ahk_string: the escapes with a backtick in AutoHotkey text.
use ahk_wayland.Prelude.{
  ℕ, ◌≡◌, refl, ap, false, Option, none, some, List, [], ◌∷◌, ◌++◌, ◌==◌, Text, map_get,
  if◌then◌else◌, arith, Bool-cases, inl, inr,
}

abbrev pub backtick : ℕ
backtick = b'`'

-- The characters that mean another one after a backtick.
abbrev pub escapes : List (ℕ × ℕ)
escapes = (b'n', 10) ∷ (b'r', 13) ∷ (b't', 9) ∷ (b'`', b'`') ∷ (b'"', b'"') ∷ (39, 39) ∷ []

-- What a backtick and the character after it push.
abbrev pub or_both : ℕ → Option ℕ → Text
or_both c none = backtick ∷ c ∷ []
or_both c (some d) = d ∷ []

abbrev pub unescaped : ℕ → Text
unescaped c = or_both c (map_get c escapes)

-- A backtick at the end is kept.
unfoldable pub unescape_ahk_string : Text → Text
unescape_ahk_string [] = []
unescape_ahk_string (c ∷ []) = c ∷ []
unescape_ahk_string (c ∷ d ∷ s) =
    let after_escape = unescape_ahk_string s in
    let after_char = unescape_ahk_string (d ∷ s) in
    if c == backtick then unescaped d ++ after_escape else c ∷ after_char

-- No code: a backtick written twice, so that any text can be given.
abbrev pub escape : Text → Text
escape [] = []
escape (c ∷ s) =
    let rest = escape s in if c == backtick then backtick ∷ (backtick ∷ rest) else c ∷ rest

unescape-char :
    (c : ℕ) (s : Text)
    → (c == backtick) ≡ false
    → unescape_ahk_string (c ∷ s) ≡ c ∷ unescape_ahk_string s
unfolding unescape_ahk_string
unescape-char c [] h = refl
unescape-char c (d ∷ s) h = rw h

-- A text whose backticks are doubled is read back as that text, whatever it holds.
unescape_ahk_string-escape : (s : Text) → unescape_ahk_string (escape s) ≡ s
unfolding unescape_ahk_string
unescape_ahk_string-escape [] = refl
unescape_ahk_string-escape (c ∷ s) = elim (Bool-cases (c == backtick)) [
  | inl tick ↦
      let e : c ≡ backtick = ground arith in
      rw e (ap (λ (t : Text). backtick ∷ t) (unescape_ahk_string-escape s))
  | inr other ↦ rw (other, unescape-char c (escape s) other, unescape_ahk_string-escape s)
]
