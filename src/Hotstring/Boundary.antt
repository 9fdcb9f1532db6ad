-- ===== src/Hotstring/Boundary.antt =====
-- hotstring.rs: the hotstrings with word boundaries, those that `from_trigger` makes of a trigger
-- without the option `*`.
use ahk_wayland.Prelude.{
  ℕ, ◌+◌, ◌≡◌, refl, Bool, true, false, some, List, [], ◌∷◌, ◌++◌, map, arith, Text, All,
  Bool-cases, inl, inr,
}
use ahk_wayland.Hotstring.{
  RollingItem, word_separator, HotstringMatch, from_trigger, trigger_item, is_word_sep,
  item_matches, advance, take_item, start_match, start_path, continue_paths, start_paths, process,
  typed, feed,
}

-- The items begin with a boundary and an item that no separator matches.
pub record IsWordHotstring (m : HotstringMatch) : Type 0 where
  pub first : RollingItem
  pub others : List RollingItem
  pub items_are : m.items ≡ word_separator ∷ first ∷ others
  pub no_separator : (d : ℕ) → is_word_sep (d ∷ []) ≡ true → item_matches first (d ∷ []) ≡ false

trigger_item-no_separator :
    (cs : Bool) (c d : ℕ)
    → is_word_sep (c ∷ []) ≡ false
    → is_word_sep (d ∷ []) ≡ true
    → item_matches (trigger_item cs c) (d ∷ []) ≡ false
unfolding item_matches is_word_sep
trigger_item-no_separator true c d h k = ground arith
trigger_item-no_separator false c d h k = ground arith

-- A trigger that does not begin with a separator makes such a hotstring, with every other option.
pub from_trigger-IsWordHotstring :
    (id c : ℕ) (t r : Text) (cs o x : Bool)
    → is_word_sep (c ∷ []) ≡ false
    → IsWordHotstring (from_trigger id (c ∷ t) r false cs o x)
unfolding from_trigger
from_trigger-IsWordHotstring id c t r cs o x h = record {
  first = trigger_item cs c;
  others = map (trigger_item cs) t ++ word_separator ∷ [];
  items_are = refl;
  no_separator = λ d k. trigger_item-no_separator cs c d h k;
}

start_path-IsWordHotstring :
    (d idx : ℕ) (m : HotstringMatch)
    → IsWordHotstring m
    → start_path true (d ∷ []) idx m ≡ advance []
unfolding start_path start_match take_item
start_path-IsWordHotstring d idx m h = elim (Bool-cases (is_word_sep (d ∷ []))) [
  | inl sep ↦ rw (h.items_are, sep, h.no_separator d sep)
  | inr other ↦ rw (h.items_are, other)
]

start_paths-IsWordHotstring :
    (d idx : ℕ) (ms : List HotstringMatch)
    → All IsWordHotstring ms
    → start_paths true (d ∷ []) idx ms ≡ advance []
unfolding start_paths
start_paths-IsWordHotstring d idx [] h = refl
start_paths-IsWordHotstring d idx (m ∷ ms) h =
    rw (start_path-IsWordHotstring d idx m h.0, start_paths-IsWordHotstring d (idx + 1) ms h.1)

process-IsWordHotstring :
    (matches : List HotstringMatch) (d : ℕ)
    → All IsWordHotstring matches
    → process matches (some []) (d ∷ []) ≡ advance []
unfolding process continue_paths
process-IsWordHotstring matches d h = rw (start_paths-IsWordHotstring d 0 matches h)

-- Once the matcher has a state and follows no path, hotstrings that all begin with a boundary and
-- an item that no separator matches are never recognised again, whatever is typed: the character
-- that satisfies the boundary is itself held against the first item of the trigger.
pub feed-misses_words :
    (matches : List HotstringMatch) (w : Text)
    → All IsWordHotstring matches
    → feed matches (some []) w ≡ typed (some [])
unfolding feed
feed-misses_words matches [] h = refl
feed-misses_words matches (d ∷ w) h =
    rw (process-IsWordHotstring matches d h) (feed-misses_words matches w h)

-- The trigger's characters are no separators, as `text_eq` on single characters tells.
abbrev pub HasNoSeparator : Text → Type 0
HasNoSeparator = All (λ c. is_word_sep (c ∷ []) ≡ false)
