-- ===== src/Hotstring/Spelling.antt =====
-- hotstring.rs: what it means that typed text spells the items of a hotstring, and what the paths
-- of a matcher state stand for.
use ahk_wayland.Prelude.{
  ℕ, zero, suc, ◌+◌, ◌≤◌, ◌<◌, ◌≡◌, refl, true, some, List, [], ◌∷◌, ◌++◌, arith, Text, length,
  get_elem?,
}
use ahk_wayland.Hotstring.{
  RollingItem, word_separator, char, char_insensitive, HotstringMatch, HotstringPath, item_matches,
}

-- Each character of the text matches the item at its place.
abbrev pub Spells : List RollingItem → Text → Type 0
Spells [] [] = Unit
Spells [] (c ∷ v) = ⊥
Spells (item ∷ items) [] = ⊥
Spells (item ∷ items) (c ∷ v) = (item_matches item (c ∷ []) ≡ true) × Spells items v

-- The items that typed characters are held against: a leading boundary takes no character.
abbrev pub body : List RollingItem → List RollingItem
body [] = []
body (word_separator ∷ items) = items
body (item ∷ items) = item ∷ items

abbrev pub lead : List RollingItem → ℕ
lead [] = 0
lead (word_separator ∷ items) = 1
lead (item ∷ items) = 0

abbrev pub take : ℕ → List RollingItem → List RollingItem
take zero items = []
take (suc k) [] = []
take (suc k) (item ∷ items) = item ∷ take k items

pub get_elem?-body :
    (items : List RollingItem) (k : ℕ) → get_elem? items (lead items + k) ≡ get_elem? (body items) k
get_elem?-body [] k = refl
get_elem?-body (word_separator ∷ items) k = ground arith
get_elem?-body (char d ∷ items) k = ground arith
get_elem?-body (char_insensitive d ∷ items) k = ground arith

pub length-body : (items : List RollingItem) → lead items + length (body items) ≡ length items
length-body [] = omega arith
length-body (word_separator ∷ items) = omega arith
length-body (char d ∷ items) = omega arith
length-body (char_insensitive d ∷ items) = omega arith

pub Spells-step :
    (items : List RollingItem) (k : ℕ) (item : RollingItem) (c : ℕ) (v : Text)
    → Spells (take k items) v
    → get_elem? items k ≡ some item
    → item_matches item (c ∷ []) ≡ true
    → Spells (take (suc k) items) (v ++ c ∷ [])
Spells-step [] k item c v s g h = ground arith
Spells-step (i ∷ items) zero item c [] s g h = ground arith
Spells-step (i ∷ items) zero item c (d ∷ v) s g h = absurd s
Spells-step (i ∷ items) (suc k) item c [] s g h = absurd s
Spells-step (i ∷ items) (suc k) item c (d ∷ v) s g h = (s.0, Spells-step items k item c v s.1 g h)

pub take-all : (items : List RollingItem) (k : ℕ) → length items ≤ k → take k items ≡ items
take-all [] zero h = refl
take-all [] (suc k) h = refl
take-all (i ∷ items) zero h = absurd (omega arith)
take-all (i ∷ items) (suc k) h = ground (arith, take-all items k)

-- After the text `w`, a path stands for an end of `w` that spells the items before its index, and
-- its `match_id` and `item_index` are in range.
pub record IsPath (matches : List HotstringMatch) (w : Text) (p : HotstringPath) : Type 0 where
  pub hotstring : HotstringMatch
  pub at_id : get_elem? matches p.match_id ≡ some hotstring
  pub in_range : p.item_index < length hotstring.items
  pub before : Text
  pub ends : w ≡ before ++ p.chars_matched
  pub count : ℕ
  pub index : p.item_index ≡ lead hotstring.items + count
  pub spelled : Spells (take count (body hotstring.items)) p.chars_matched

-- `m` is one of the hotstrings, and the text has an end that spells its items.
pub record IsFound (matches : List HotstringMatch) (w : Text) (m : HotstringMatch) : Type 0 where
  pub id : ℕ
  pub at_id : get_elem? matches id ≡ some m
  pub before : Text
  pub chars : Text
  pub ends : w ≡ before ++ chars
  pub spelled : Spells (body m.items) chars
