-- ===== src/Ahk/PassThrough/RoundTrip.antt =====
-- ahk/parser.rs, parse_hotkey, and ahk/send_parser.rs: what the string that passes a hotkey on is
-- read as.
use ahk_wayland.Prelude.{
  ℕ, ◌≡◌, refl, ap, ◌∙◌, Bool, true, false, not, ◌&&◌, ◌||◌, Option, none, some, List, [], ◌∷◌,
  ◌++◌, map, Text, ◌==◌, ltb, arith, All, map_get, contains, to_ascii_lowercase, if◌then◌else◌,
  Bool-cases, inl, inr,
}
use ahk_wayland.Key.{
  Key, key_leftctrl, key_leftalt, key_leftshift, key_leftmeta, key_rightctrl, key_rightalt,
  key_rightshift, key_rightmeta, key_0, key_1, key_2, key_3, key_4, key_5, key_6, key_7, key_8,
  key_9, key_capslock, key_insert, key_f13, key_f14, key_f15, key_f16, key_f17, key_f18, key_f19,
  key_f20, key_f21, key_f22, key_f23, key_f24,
}
use ahk_wayland.Ahk.SendParser.{
  special_keys, lookup_name, parse_special_key, parse_send_string, modifier_of,
}
use ahk_wayland.Ahk.SendParser.Tokens.{AreModifiers, key_or_nothing, parse_send_string-chord}
use ahk_wayland.Ahk.PassThrough.{
  modifier_char, modifier_chars, pass_through_names, in_braces, braced, pass_through,
}

-- What the standard library documents of `to_lowercase` on ASCII text.
abbrev pub LowersAscii : (Text → Text) → Type 0
LowersAscii to_lowercase =
    (s : Text) → All (λ c. ltb c 128 ≡ true) s → to_lowercase s ≡ map to_ascii_lowercase s

-- What is left of the modifiers of a hotkey: of a pair the left key, and of another key, such as
-- the first of `CapsLock & j`, nothing.
abbrev pub left_modifier : Key → List Key
left_modifier k =
    if k == key_leftctrl || k == key_rightctrl
    then key_leftctrl ∷ []
    else if k == key_leftalt || k == key_rightalt
    then key_leftalt ∷ []
    else if k == key_leftshift || k == key_rightshift
    then key_leftshift ∷ []
    else if k == key_leftmeta || k == key_rightmeta
    then key_leftmeta ∷ []
    else []

abbrev pub left_modifiers : List Key → List Key
left_modifiers [] = []
left_modifiers (k ∷ ks) = left_modifier k ++ left_modifiers ks

-- Keys that have a name for the string, but none for its reader.
abbrev pub unread_keys : List Key
unread_keys =
    key_0 ∷ key_1 ∷ key_2 ∷ key_3 ∷ key_4 ∷ key_5 ∷ key_6 ∷ key_7 ∷ key_8 ∷ key_9 ∷ key_capslock
    ∷ key_insert ∷ key_f13 ∷ key_f14 ∷ key_f15 ∷ key_f16 ∷ key_f17 ∷ key_f18 ∷ key_f19 ∷ key_f20
    ∷ key_f21 ∷ key_f22 ∷ key_f23 ∷ key_f24 ∷ []

abbrev pub readable : Key → Option Key
readable k = if contains unread_keys k then none else some k

-- The check of one entry of the table of names.
abbrev same_key : Option Key → Option Key → Bool
same_key none none = true
same_key (some j) (some k) = j == k
same_key _ _ = false

same_key-eq : (o p : Option Key) → same_key o p ≡ true → o ≡ p
same_key-eq none none h = refl
same_key-eq none (some k) h = ground arith
same_key-eq (some j) none h = ground arith
same_key-eq (some j) (some k) h = ground arith

&&-parts : (a b : Bool) → (a && b) ≡ true → (a ≡ true) × (b ≡ true)
&&-parts a b h = ground arith

abbrev all_chars : (ℕ → Bool) → Text → Bool
all_chars p [] = true
all_chars p (c ∷ s) = p c && all_chars p s

all_chars-All : (p : ℕ → Bool) (s : Text) → all_chars p s ≡ true → All (λ c. p c ≡ true) s
all_chars-All p [] h = tt
all_chars-All p (c ∷ s) h = (ground arith, all_chars-All p s (ground arith))

entry_is_right : Key → Text → Bool
entry_is_right k name =
    same_key (lookup_name (map to_ascii_lowercase name) special_keys) (readable k)
    && (all_chars (λ c. ltb c 128) name && all_chars (λ c. not (c == b'}')) name)

table_is_right : List (Key × Text) → Bool
table_is_right [] = true
table_is_right ((k, name) ∷ m) = entry_is_right k name && table_is_right m

table_lookup :
    (m : List (Key × Text)) (k : Key) (name : Text)
    → table_is_right m ≡ true
    → map_get k m ≡ some name
    → entry_is_right k name ≡ true
unfolding table_is_right
table_lookup [] k name h e = ground arith
table_lookup ((j, n) ∷ m) k name h e = elim (Bool-cases (j == k)) [
  | inl same ↦
      let p : j ≡ k = ground arith in
      let q : n ≡ name = ground arith in rw (← p, ← q) (ground arith)
  | inr other ↦ table_lookup m k name (ground arith) (ground arith)
]

names_are_right : table_is_right pass_through_names ≡ true
unfolding table_is_right entry_is_right
names_are_right = refl

entry_parts :
    (k : Key) (name : Text)
    → entry_is_right k name ≡ true
    → (lookup_name (map to_ascii_lowercase name) special_keys ≡ readable k)
      × All (λ c. ltb c 128 ≡ true) name
      × All (λ c. not (c == b'}') ≡ true) name
unfolding entry_is_right
entry_parts k name right =
    let h =
      &&-parts (same_key (lookup_name (map to_ascii_lowercase name) special_keys) (readable k)) _
        right in
    let g = &&-parts (all_chars (λ c. ltb c 128) name) _ h.1 in
    (same_key-eq _ _ h.0, all_chars-All _ name g.0, all_chars-All _ name g.1)

no_brace : (s : Text) → All (λ c. not (c == b'}') ≡ true) s → All (λ c. (c == b'}') ≡ false) s
no_brace [] h = tt
no_brace (c ∷ s) h = (ground arith, no_brace s h.1)

-- The names are read back, whatever `to_lowercase` does on other text than ASCII.
name-read :
    (to_lowercase : Text → Text)
    → LowersAscii to_lowercase
    → (k : Key) (name : Text) → map_get k pass_through_names ≡ some name
    → (parse_special_key to_lowercase name ≡ readable k) × All (λ c. (c == b'}') ≡ false) name
unfolding parse_special_key
name-read to_lowercase lowers k name e =
    let h = entry_parts k name (table_lookup pass_through_names k name names_are_right e) in
    (ap (λ (n : Text). lookup_name n special_keys) (lowers name h.1) ∙ h.0, no_brace name h.2)

modifier_chars-AreModifiers : (ks : List Key) → AreModifiers (modifier_chars ks) (left_modifiers ks)
unfolding modifier_chars modifier_char modifier_of
modifier_chars-AreModifiers [] = tt
modifier_chars-AreModifiers (k ∷ ks) = elim (Bool-cases (k == key_leftctrl || k == key_rightctrl)) [
  | inl ctrl ↦ rw ctrl (refl, modifier_chars-AreModifiers ks)
  | inr n ↦ elim (Bool-cases (k == key_leftalt || k == key_rightalt)) [
    | inl alt ↦ rw (n, alt) (refl, modifier_chars-AreModifiers ks)
    | inr n' ↦ elim (Bool-cases (k == key_leftshift || k == key_rightshift)) [
      | inl shift ↦ rw (n, n', shift) (refl, modifier_chars-AreModifiers ks)
      | inr n2 ↦ elim (Bool-cases (k == key_leftmeta || k == key_rightmeta)) [
        | inl meta ↦ rw (n, n', n2, meta) (refl, modifier_chars-AreModifiers ks)
        | inr n3 ↦ rw (n, n', n2, n3) (modifier_chars-AreModifiers ks)
      ]
    ]
  ]
]

-- The string that passes a hotkey on is read as its key with just its modifiers, in their order,
-- each as the left key of its pair. A modifier that is none of Ctrl, Alt, Shift and Meta, such as the
-- first key of `CapsLock & j`, is lost; and if the key is a digit, CapsLock, Insert or one of F13 to
-- F24, of which the reader knows no name, no token is read at all.
pub pass_through-read :
    (to_lowercase : Text → Text) (modifiers : List Key) (k : Key) (s : Text)
    → LowersAscii to_lowercase
    → pass_through modifiers k ≡ some s
    → parse_send_string to_lowercase s ≡ key_or_nothing (readable k) (left_modifiers modifiers)
unfolding pass_through
pass_through-read to_lowercase modifiers k s lowers h = go (map_get k pass_through_names) refl h
  where
    go :
        (o : Option Text)
        → map_get k pass_through_names ≡ o
        → braced modifiers o ≡ some s
        → parse_send_string to_lowercase s ≡ key_or_nothing (readable k) (left_modifiers modifiers)
    go none e h' = ground arith
    go (some name) e h' =
        let q : s ≡ modifier_chars modifiers ++ in_braces name = cc in
        let r = name-read to_lowercase lowers k name e in
        rw (
          q,
          parse_send_string-chord to_lowercase (modifier_chars modifiers) (left_modifiers modifiers)
              name (modifier_chars-AreModifiers modifiers) r.1,
          r.0,
        )
