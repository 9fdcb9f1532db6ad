-- ===== src/Hotstring/Start.antt =====
-- hotstring.rs: at the start of the input a hotstring with word boundaries is recognised.
use native.Mathlib.Nat.{add-zero}
use ahk_wayland.Prelude.{
  ℕ, suc, ◌+◌, ◌≡◌, refl, Bool, true, false, none, some, List, [], ◌∷◌, ◌++◌, map, arith, Text,
  length, leb, get_elem?,
}
use ahk_wayland.Hotstring.{
  RollingItem, word_separator, HotstringMatch, from_trigger, trigger_item, Paths, is_word_sep,
  item_matches, advance, matched, process, found, feed,
}
use ahk_wayland.Hotstring.Boundary.{HasNoSeparator}

trigger_item_self : (cs : Bool) (c : ℕ) → item_matches (trigger_item cs c) (c ∷ []) ≡ true
unfolding item_matches
trigger_item_self true c = ground arith
trigger_item_self false c = ground arith

abbrev one_path : ℕ → Text → Paths
one_path i v = record { item_index = i; match_id = 0; chars_matched = v } ∷ []

-- A hotstring whose items are a boundary and then others.
module _ (m : HotstringMatch) (its : List RollingItem) (e : m.items ≡ word_separator ∷ its) where
  -- A character that matches an item before the last and is no separator moves the path on.
  process-moves :
      (i c : ℕ) (v : Text) (item : RollingItem)
      → get_elem? m.items i ≡ some item
      → item_matches item (c ∷ []) ≡ true
      → is_word_sep (c ∷ []) ≡ false
      → leb (length m.items) (i + 1) ≡ false
      → process (m ∷ []) (some (one_path i v)) (c ∷ []) ≡ advance (one_path (i + 1) (v ++ c ∷ []))
  unfolding process
  process-moves i c v item g h s l = rw (g, h, l, e, s)

  process-ends :
      (i c : ℕ) (v : Text) (item : RollingItem)
      → get_elem? m.items i ≡ some item
      → item_matches item (c ∷ []) ≡ true
      → leb (length m.items) (i + 1) ≡ true
      → process (m ∷ []) (some (one_path i v)) (c ∷ []) ≡ matched m
  unfolding process
  process-ends i c v item g h l = rw (g, h, l)

  -- From item `i`, typing the characters of the items up to the closing boundary, and a separator.
  feed-ends :
      (cs : Bool) (t : Text) (i sep : ℕ) (v rest : Text)
      → i + length (map (trigger_item cs) t) + 1 ≡ length m.items
      → ((k : ℕ) (x : RollingItem)
          → get_elem? (map (trigger_item cs) t ++ word_separator ∷ []) k ≡ some x
          → get_elem? m.items (i + k) ≡ some x)
      → HasNoSeparator t
      → is_word_sep (sep ∷ []) ≡ true
      → feed (m ∷ []) (some (one_path i v)) (t ++ sep ∷ rest) ≡ found m rest
  unfolding feed
  feed-ends cs [] i sep v rest l g no_sep s = rw (
      process-ends i sep v word_separator (rw add-zero at (g 0 word_separator refl))
        (unfold item_matches in s) (ground arith))
  feed-ends cs (c ∷ t) i sep v rest l g no_sep s =
      rw
        (process-moves i c v (trigger_item cs c) (rw add-zero at (g 0 _ refl))
          (trigger_item_self cs c) no_sep.0 (ground arith))
        (feed-ends cs t (i + 1) sep (v ++ c ∷ []) rest (omega (arith, l))
          (λ k x here. let f : i + 1 + k ≡ i + suc k = omega arith in rw f (g (suc k) x here))
          no_sep.1 s)

process-opens :
    (m : HotstringMatch) (item : RollingItem) (its : List RollingItem) (c : ℕ)
    → m.items ≡ word_separator ∷ item ∷ its
    → item_matches item (c ∷ []) ≡ true
    → leb (length m.items) 2 ≡ false
    → process (m ∷ []) none (c ∷ []) ≡ advance (one_path 2 (c ∷ []))
unfolding process
process-opens m item its c e h l = rw (e, h, rw e at l)

length-map-word :
    (cs : Bool) (t : Text)
    → length (map (trigger_item cs) t ++ word_separator ∷ []) ≡ length (map (trigger_item cs) t) + 1
length-map-word cs [] = omega arith
length-map-word cs (c ∷ t) = omega (arith, length-map-word cs t)

-- If a hotstring with boundaries, whatever its options, is the only one of a matcher, and its trigger
-- is not empty and has no separator in it: when the trigger is the first text typed and a separator
-- follows, the matcher finds it at that separator.
pub feed-from_trigger :
    (id c sep : ℕ) (t replacement : Text) (cs o x : Bool) (rest : Text)
    → HasNoSeparator (c ∷ t)
    → is_word_sep (sep ∷ []) ≡ true
    → feed (from_trigger id (c ∷ t) replacement false cs o x ∷ []) none ((c ∷ t) ++ sep ∷ rest)
      ≡ found (from_trigger id (c ∷ t) replacement false cs o x) rest
unfolding feed from_trigger
feed-from_trigger id c sep t replacement cs o x rest no_sep s =
    let m = from_trigger id (c ∷ t) replacement false cs o x in
    rw
      (process-opens m (trigger_item cs c) (map (trigger_item cs) t ++ word_separator ∷ []) c refl
        (trigger_item_self cs c) (ground (arith, length-map-word cs t)))
      (feed-ends m (map (trigger_item cs) (c ∷ t) ++ word_separator ∷ []) refl cs t 2 sep (c ∷ [])
        rest (omega (arith, length-map-word cs t))
        (λ k y here. let f : 2 + k ≡ suc (suc k) = omega arith in rw f here) no_sep.1 s)
