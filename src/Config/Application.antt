-- ===== src/Config/Application.antt =====
-- config/application.rs: an application matcher from its text in a configuration.
use ahk_wayland.Prelude.{
  ℕ, ◌≡◌, ap, ◌∙◌, Bool, true, false, not, Option, none, some, List, [], ◌∷◌, ◌++◌, ◌==◌, Text,
  if◌then◌else◌, arith, Bool-cases, inl, inr, any, append_assoc, append-nil,
}
use ahk_wayland.Config.Types.{ApplicationMatcher, literal, name, regex}

abbrev pub slash : ℕ
slash = b'/'

abbrev pub backslash : ℕ
backslash = 92

-- The loop of `slash_unescape`: `escaping`, `finished` and `result`. None is an error.
unfoldable pub unescape_loop : Text → Bool → Bool → Text → Option Text
unescape_loop [] escaping finished result = if not finished then none else some result
unescape_loop (c ∷ s) escaping finished result =
    let escaped =
      unescape_loop s false finished
        (if not (c == slash) then result ++ (backslash ∷ c ∷ []) else result ++ c ∷ []) in
    let closed = unescape_loop s escaping true result in
    let opened = unescape_loop s true finished result in
    let pushed = unescape_loop s escaping finished (result ++ c ∷ []) in
    if finished
    then none
    else if escaping
    then escaped
    else if c == slash
    then closed
    else if c == backslash
    then opened
    else pushed

abbrev pub skip_one : Text → Text
skip_one [] = []
skip_one (c ∷ s) = s

unfoldable pub slash_unescape : Text → Option Text
unfolding unescape_loop
slash_unescape s = unescape_loop (skip_one s) false false []

abbrev pub regex_matcher : (Text → Bool) → Option Text → Option ApplicationMatcher
regex_matcher is_regex none = none
regex_matcher is_regex (some r) = if is_regex r then some (regex r) else none

-- `ApplicationMatcher::from_str`. Whether a pattern compiles is the `regex` crate's to say.
unfoldable pub from_str : (Text → Bool) → Text → Option ApplicationMatcher
unfolding slash_unescape
from_str is_regex [] = some (name [])
from_str is_regex (c ∷ s) =
    if c == slash
    then regex_matcher is_regex (slash_unescape (c ∷ s))
    else if any (λ d. d == b'.') (c ∷ s)
    then some (literal (c ∷ s))
    else some (name (c ∷ s))

-- No code: a pattern is a sequence of plain characters and of backslashes with what they escape.
pub data Piece : Type 0 where
  plain : ℕ → Piece
  escaped : ℕ → Piece

-- A plain character is no backslash, and what is escaped no slash.
abbrev pub IsPattern : List Piece → Type 0
IsPattern [] = Unit
IsPattern (plain c ∷ ps) = ((c == backslash) ≡ false) × IsPattern ps
IsPattern (escaped c ∷ ps) = ((c == slash) ≡ false) × IsPattern ps

abbrev pub pattern_text : List Piece → Text
pattern_text [] = []
pattern_text (plain c ∷ ps) = c ∷ pattern_text ps
pattern_text (escaped c ∷ ps) = backslash ∷ (c ∷ pattern_text ps)

-- The pattern between slashes: a slash in it has a backslash before it.
abbrev pub quoted : List Piece → Text
quoted [] = slash ∷ []
quoted (plain c ∷ ps) =
    let rest = quoted ps in if c == slash then backslash ∷ (slash ∷ rest) else c ∷ rest
quoted (escaped c ∷ ps) = backslash ∷ (c ∷ quoted ps)

unescape_loop-quoted :
    (ps : List Piece) (result : Text)
    → IsPattern ps
    → unescape_loop (quoted ps) false false result ≡ some (result ++ pattern_text ps)
unfolding unescape_loop
unescape_loop-quoted [] result h = rw append-nil
unescape_loop-quoted (plain c ∷ ps) result h = elim (Bool-cases (c == slash)) [
  | inl here ↦
      let e : c ≡ slash = ground arith in
      rw e (
        unescape_loop-quoted ps (result ++ slash ∷ []) h.1
        ∙ ap some (append_assoc result (slash ∷ []) (pattern_text ps)))
  | inr other ↦
      rw other (rw (other, h.0, unescape_loop-quoted ps (result ++ c ∷ []) h.1, append_assoc))
]
unescape_loop-quoted (escaped c ∷ ps) result h =
    rw (h.0, unescape_loop-quoted ps (result ++ (backslash ∷ c ∷ [])) h.1, append_assoc)

-- Any pattern made of plain characters and of backslashes with what they escape, unless that is a
-- slash: written between slashes, with a backslash before each of its own plain slashes, it is read
-- as that pattern.
pub slash_unescape-quoted :
    (ps : List Piece) → IsPattern ps → slash_unescape (slash ∷ quoted ps) ≡ some (pattern_text ps)
unfolding slash_unescape
slash_unescape-quoted ps h = unescape_loop-quoted ps [] h
