-- ===== src/Ahk/SendParser/Tokens.antt =====
-- ahk/send_parser.rs: which tokens come of plain text, and of a key with modifiers.
use ahk_wayland.Prelude.{
  ℕ, ◌≡◌, refl, ap, ◌∙◌, false, Option, none, some, List, [], ◌∷◌, ◌++◌, Text, ◌==◌, arith, All,
  is_empty, append_assoc, append-nil, if◌then◌else◌,
}
use ahk_wayland.Key.{Key}
use ahk_wayland.Ahk.SendParser.{
  SendToken, key, text_token, SendState, flush, modifier_of, push_key, send_other, send_outside,
  parse_special_key, close_brace, send_char, send_end, send_loop, parse_send_string,
}

-- The character is neither a modifier nor an opening brace.
abbrev pub IsPlain : ℕ → Type 0
IsPlain c = (modifier_of c ≡ none) × ((c == b'{') ≡ false)

abbrev pub text_or_nothing : Text → List SendToken
text_or_nothing s = if is_empty s then [] else text_token s ∷ []

abbrev state : List SendToken → List Key → Text → Option Text → SendState
state ts ms buffer name = record {
  tokens = ts;
  current_mods = ms;
  text_buffer = buffer;
  key_name = name;
}

-- Each character is that of the modifier key at its place.
abbrev pub AreModifiers : Text → List Key → Type 0
AreModifiers [] [] = Unit
AreModifiers [] (k ∷ ks) = ⊥
AreModifiers (c ∷ s) [] = ⊥
AreModifiers (c ∷ s) (k ∷ ks) = (modifier_of c ≡ some k) × AreModifiers s ks

abbrev pub key_or_nothing : Option Key → List Key → List SendToken
key_or_nothing none ks = []
key_or_nothing (some k) ks = key k ks ∷ []

module _ (to_lowercase : Text → Text) where
  plain-from :
      (s v : Text)
      → All IsPlain s
      → send_loop to_lowercase s (state [] [] v none) ≡ text_or_nothing (v ++ s)
  unfolding send_loop send_end flush send_char send_outside send_other
  plain-from [] v h = rw append-nil (ground arith)
  plain-from (c ∷ s) v h =
      rw (h.0.0, h.0.1)
        (plain-from s (v ++ c ∷ []) h.1 ∙ ap text_or_nothing (append_assoc v (c ∷ []) s))

  -- Text with no modifier character and no opening brace is one text token of just that text, and
  -- no token if it is empty.
  parse_send_string-plain :
      (s : Text) → All IsPlain s → parse_send_string to_lowercase s ≡ text_or_nothing s
  unfolding parse_send_string
  parse_send_string-plain s h = plain-from s [] h

  -- A name in braces is read up to its brace.
  pub send_loop-name :
      (name v rest : Text) (ts : List SendToken) (ms : List Key) (buffer : Text)
      → All (λ c. (c == b'}') ≡ false) name
      → send_loop to_lowercase (name ++ b'}' ∷ rest) (state ts ms buffer (some v))
        ≡ send_loop to_lowercase rest
            (close_brace to_lowercase (v ++ name) (state ts ms buffer (some (v ++ name))))
  unfolding send_loop send_char
  send_loop-name [] v rest ts ms buffer h = rw append-nil
  send_loop-name (c ∷ name) v rest ts ms buffer h =
      rw (h.0, send_loop)
        (send_loop-name name (v ++ c ∷ []) rest ts ms buffer h.1
          ∙ ap
              (λ (n : Text).
                send_loop to_lowercase rest
                  (close_brace to_lowercase n (state ts ms buffer (some n))))
              (append_assoc v (c ∷ []) name))

  -- Modifier characters are gathered, in their order.
  pub send_loop-modifiers :
      (mods : Text) (ks js : List Key) (rest : Text)
      → AreModifiers mods ks
      → send_loop to_lowercase (mods ++ rest) (state [] js [] none)
        ≡ send_loop to_lowercase rest (state [] (js ++ ks) [] none)
  unfolding send_loop send_char send_outside flush
  send_loop-modifiers [] [] js rest h = rw append-nil
  send_loop-modifiers [] (k ∷ ks) js rest h = absurd h
  send_loop-modifiers (c ∷ mods) [] js rest h = absurd h
  send_loop-modifiers (c ∷ mods) (k ∷ ks) js rest h =
      rw (h.0, send_loop)
        (send_loop-modifiers mods ks (js ++ k ∷ []) rest h.1
          ∙ ap (λ (l : List Key). send_loop to_lowercase rest (state [] l [] none))
              (append_assoc js (k ∷ []) ks))

  opened :
      (name : Text) (ks : List Key)
      → send_loop to_lowercase (b'{' ∷ (name ++ b'}' ∷ [])) (state [] ks [] none)
        ≡ send_loop to_lowercase (name ++ b'}' ∷ []) (state [] ks [] (some []))
  unfolding send_loop send_char send_outside flush modifier_of
  opened name ks = refl

  closed :
      (o : Option Key) (name : Text) (ks : List Key)
      → parse_special_key to_lowercase name ≡ o
      → send_loop to_lowercase [] (close_brace to_lowercase name (state [] ks [] (some name)))
        ≡ key_or_nothing o ks
  unfolding send_loop send_end close_brace push_key flush
  closed none name ks e = rw e
  closed (some k) name ks e = rw e

  -- Modifier characters and then a key name in braces: one key token with just those modifiers, in
  -- their order, if the name is known; if it is not, no token at all.
  pub parse_send_string-chord :
      (mods : Text) (ks : List Key) (name : Text)
      → AreModifiers mods ks
      → All (λ c. (c == b'}') ≡ false) name
      → parse_send_string to_lowercase (mods ++ (b'{' ∷ (name ++ b'}' ∷ [])))
        ≡ key_or_nothing (parse_special_key to_lowercase name) ks
  unfolding parse_send_string
  parse_send_string-chord mods ks name h no_brace =
      send_loop-modifiers mods ks [] (b'{' ∷ (name ++ b'}' ∷ [])) h
      ∙ opened name ks
      ∙ send_loop-name name [] [] [] ks [] no_brace
      ∙ closed (parse_special_key to_lowercase name) name ks refl
