-- ===== src/Config/KeyNames/Joined.antt =====
-- config/key_press.rs: a key press that is written as its names with a dash between each two.
use ahk_wayland.Prelude.{
  ◌≡◌, refl, ap, ◌∙◌, false, some, List, [], ◌∷◌, ◌++◌, Text, ◌==◌, split, split_from, All,
  append_assoc, append-nil,
}
use ahk_wayland.Key.{Key}
use ahk_wayland.Config.Types.{Modifier}
use ahk_wayland.Config.KeyNames.{
  KeyLibrary, parse_key, parse_modifier, parse_parts, parse_key_press,
}

-- The names of the modifiers, each with a dash behind it, and the name of the key.
abbrev pub with_dashes : List Text → Text → Text
with_dashes [] key = key
with_dashes (name ∷ names) key = name ++ (b'-' ∷ with_dashes names key)

abbrev pub HasNoDash : Text → Type 0
HasNoDash s = All (λ c. (c == b'-') ≡ false) s

split_from-part :
    (s word rest : Text)
    → HasNoDash s
    → split_from b'-' word (s ++ b'-' ∷ rest) ≡ (word ++ s) ∷ split b'-' rest
split_from-part [] word rest h = rw append-nil refl
split_from-part (c ∷ s) word rest h = rw h.0 (
    split_from-part s (word ++ c ∷ []) rest h.1
    ∙ ap (λ (w : Text). w ∷ split b'-' rest) (append_assoc word (c ∷ []) s))

split_from-last : (s word : Text) → HasNoDash s → split_from b'-' word s ≡ (word ++ s) ∷ []
split_from-last [] word h = rw append-nil refl
split_from-last (c ∷ s) word h = rw h.0 (
    split_from-last s (word ++ c ∷ []) h.1
    ∙ ap (λ (w : Text). w ∷ []) (append_assoc word (c ∷ []) s))

split-with_dashes :
    (names : List Text) (key : Text)
    → All HasNoDash names
    → HasNoDash key
    → split b'-' (with_dashes names key) ≡ names ++ key ∷ []
split-with_dashes [] key h k = split_from-last key [] k
split-with_dashes (name ∷ names) key h k =
    split_from-part name [] (with_dashes names key) h.0
    ∙ ap (λ (l : List Text). name ∷ l) (split-with_dashes names key h.1 k)

-- The names are those of the modifiers, one for one.
abbrev pub AreNames : KeyLibrary → List Text → List Modifier → Type 0
AreNames lib [] [] = Unit
AreNames lib [] (m ∷ ms) = ⊥
AreNames lib (name ∷ names) [] = ⊥
AreNames lib (name ∷ names) (m ∷ ms) = (parse_modifier lib name ≡ some m) × AreNames lib names ms

parse_parts-names :
    (lib : KeyLibrary) (names : List Text) (ms : List Modifier) (key : Text) (k : Key)
    → AreNames lib names ms
    → parse_key lib key ≡ some k
    → parse_parts lib (names ++ key ∷ []) ≡ some (record { key = k; modifiers = ms })
unfolding parse_parts
parse_parts-names lib [] [] key k h e = rw e refl
parse_parts-names lib [] (m ∷ ms) key k h e = absurd h
parse_parts-names lib (name ∷ names) [] key k h e = absurd h
parse_parts-names lib (name ∷ []) (m ∷ ms) key k h e =
    rw (h.0, parse_parts-names lib [] ms key k h.1 e) refl
parse_parts-names lib (name ∷ next ∷ names) (m ∷ ms) key k h e =
    rw (h.0, parse_parts-names lib (next ∷ names) ms key k h.1 e) refl

-- Names of modifiers and the name of a key, none of which has a dash, with a dash between each two
-- are read as that key with just those modifiers, in their order.
pub parse_key_press-with_dashes :
    (lib : KeyLibrary) (names : List Text) (ms : List Modifier) (key : Text) (k : Key)
    → All HasNoDash names
    → HasNoDash key
    → AreNames lib names ms
    → parse_key lib key ≡ some k
    → parse_key_press lib (with_dashes names key) ≡ some (record { key = k; modifiers = ms })
unfolding parse_key_press
parse_key_press-with_dashes lib names ms key k no_dash no_dash_in_key h e =
    ap (parse_parts lib) (split-with_dashes names key no_dash no_dash_in_key)
    ∙ parse_parts-names lib names ms key k h e
