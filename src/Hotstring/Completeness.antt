-- ===== src/Hotstring/Completeness.antt =====
-- hotstring.rs: an immediate hotstring whose characters are typed is not missed.
use native.Mathlib.Nat.{add-zero}
use ahk_wayland.Prelude.{
  ℕ, zero, suc, ◌+◌, ◌≡◌, ◌≢◌, refl, ap, Bool, true, false, ◌&&◌, Option, none, some, List, [], ◌∷◌,
  ◌++◌, arith, Text, length, leb, any, ◌==◌, get_elem?, Bool-cases, inl, inr,
}
use ahk_wayland.Hotstring.{
  RollingItem, word_separator, char, char_insensitive, HotstringMatch, HotstringPath, Paths,
  item_matches, Round, advance, matched, panic, take_item, continue_match, continue_path,
  start_match, start_path, then_round, continue_paths, start_paths, prev_paths, process, Feed,
  typed, found, crashed, feed_round, feed,
}
use ahk_wayland.Hotstring.Spelling.{Spells}
use ahk_wayland.Hotstring.Soundness.{feed-IsSound, FeedIsSound}

abbrev is_at : ℕ → ℕ → HotstringPath → Bool
is_at id i p = p.match_id == id && p.item_index == i

abbrev has_path : ℕ → ℕ → Paths → Bool
has_path id i ps = any (is_at id i) ps

has_path-append_left :
    (id i : ℕ) (ps qs : Paths) → has_path id i ps ≡ true → has_path id i (ps ++ qs) ≡ true
has_path-append_left id i [] qs h = ground arith
has_path-append_left id i (p ∷ ps) qs h = ground (arith, has_path-append_left id i ps qs)

has_path-append_right :
    (id i : ℕ) (ps qs : Paths) → has_path id i qs ≡ true → has_path id i (ps ++ qs) ≡ true
has_path-append_right id i [] qs h = h
has_path-append_right id i (p ∷ ps) qs h = ground (arith, has_path-append_right id i ps qs h)

-- A round that does not end the loops goes on with hotstring `id` at item `i`, unless it has to end.
abbrev Proceeds : Bool → ℕ → ℕ → Round → Type 0
Proceeds last id i (advance ps) = (last ≡ false) × (has_path id i ps ≡ true)
Proceeds last id i (matched m) = Unit
Proceeds last id i panic = Unit

Proceeds-first :
    (last : Bool) (id i : ℕ) (r s : Round)
    → Proceeds last id i r
    → Proceeds last id i (then_round r s)
Proceeds-first last id i (advance ps) (advance qs) h = (h.0, has_path-append_left id i ps qs h.1)
Proceeds-first last id i (advance ps) (matched m) h = tt
Proceeds-first last id i (advance ps) panic h = tt
Proceeds-first last id i (matched m) s h = tt
Proceeds-first last id i panic s h = tt

Proceeds-second :
    (last : Bool) (id i : ℕ) (r s : Round)
    → Proceeds last id i s
    → Proceeds last id i (then_round r s)
Proceeds-second last id i (advance ps) (advance qs) h = (h.0, has_path-append_right id i ps qs h.1)
Proceeds-second last id i (advance ps) (matched m) h = tt
Proceeds-second last id i (advance ps) panic h = tt
Proceeds-second last id i (matched m) s h = tt
Proceeds-second last id i panic s h = tt

take_item-Proceeds :
    (m : HotstringMatch) (id i : ℕ) (v c : Text) (item : RollingItem)
    → item_matches item c ≡ true
    → Proceeds (leb (length m.items) i) id i (take_item m id i v c (some item))
unfolding take_item
take_item-Proceeds m id i v c item h = rw h (elim (Bool-cases (leb (length m.items) i)) [
  | inl last ↦ rw last tt
  | inr more ↦ rw more (refl, ground arith)
])

module _ (matches : List HotstringMatch) (id : ℕ) (m : HotstringMatch)
    (at : get_elem? matches id ≡ some m) where
  continue_path-Proceeds :
      (i : ℕ) (item : RollingItem) (c : Text) (p : HotstringPath)
      → get_elem? m.items i ≡ some item
      → item_matches item c ≡ true
      → is_at id i p ≡ true
      → Proceeds (leb (length m.items) (i + 1)) id (i + 1) (continue_path matches c p)
  unfolding continue_path continue_match
  continue_path-Proceeds i item c p g h here =
      let e : p.match_id ≡ id = ground arith in
      let f : p.item_index ≡ i = ground arith in
      rw (e, at, f, g) (take_item-Proceeds m id (i + 1) (p.chars_matched ++ c) c item h)

  continue_paths-Proceeds :
      (i : ℕ) (item : RollingItem) (c : Text) (ps : Paths)
      → get_elem? m.items i ≡ some item
      → item_matches item c ≡ true
      → has_path id i ps ≡ true
      → Proceeds (leb (length m.items) (i + 1)) id (i + 1) (continue_paths matches c ps)
  unfolding continue_paths
  continue_paths-Proceeds i item c [] g h has = ground arith
  continue_paths-Proceeds i item c (p ∷ ps) g h has = elim (Bool-cases (is_at id i p)) [
    | inl here ↦
        Proceeds-first _ id (i + 1) (continue_path matches c p) _
          (continue_path-Proceeds i item c p g h here)
    | inr there ↦
        Proceeds-second _ id (i + 1) (continue_path matches c p) _
          (continue_paths-Proceeds i item c ps g h (ground arith))
  ]

  start_match-Proceeds :
      (b : Bool) (c : Text) (item : RollingItem)
      → item ≢ word_separator
      → item_matches item c ≡ true
      → Proceeds (leb (length m.items) 1) id 1 (start_match b c id m (some item))
  unfolding start_match
  start_match-Proceeds b c word_separator ne h = absurd (ne refl)
  start_match-Proceeds b c (char d) ne h = take_item-Proceeds m id 1 c c (char d) h
  start_match-Proceeds b c (char_insensitive d) ne h =
      take_item-Proceeds m id 1 c c (char_insensitive d) h

  start_paths-Proceeds :
      (b : Bool) (c : Text) (item : RollingItem) (idx k : ℕ) (ms : List HotstringMatch)
      → item ≢ word_separator
      → get_elem? m.items 0 ≡ some item
      → item_matches item c ≡ true
      → get_elem? ms k ≡ some m
      → idx + k ≡ id
      → Proceeds (leb (length m.items) 1) id 1 (start_paths b c idx ms)
  unfolding start_paths start_path
  start_paths-Proceeds b c item idx k [] ne g h there e = ground arith
  start_paths-Proceeds b c item idx zero (n ∷ ms) ne g h there e =
      let same : n ≡ m = cc in
      let here : idx ≡ id = omega arith in
      rw (same, here, g)
        (Proceeds-first _ id 1 (start_match b c id m (some item)) _
          (start_match-Proceeds b c item ne h))
  start_paths-Proceeds b c item idx (suc k) (n ∷ ms) ne g h there e =
      Proceeds-second _ id 1 (start_match b c idx n (get_elem? n.items 0)) _
        (start_paths-Proceeds b c item (idx + 1) k ms ne g h there (omega arith))

  process-Proceeds_on :
      (i : ℕ) (item : RollingItem) (c : Text) (ps : Paths)
      → get_elem? m.items i ≡ some item
      → item_matches item c ≡ true
      → has_path id i ps ≡ true
      → Proceeds (leb (length m.items) (i + 1)) id (i + 1) (process matches (some ps) c)
  unfolding process
  process-Proceeds_on i item c ps g h has =
      Proceeds-first _ id (i + 1) (continue_paths matches c ps) _
        (continue_paths-Proceeds i item c ps g h has)

  process-Proceeds_new :
      (state : Option Paths) (item : RollingItem) (c : Text)
      → item ≢ word_separator
      → get_elem? m.items 0 ≡ some item
      → item_matches item c ≡ true
      → Proceeds (leb (length m.items) 1) id 1 (process matches state c)
  unfolding process
  process-Proceeds_new state item c ne g h =
      Proceeds-second _ id 1 (continue_paths matches c (prev_paths state)) _
        (start_paths-Proceeds _ c item 0 id matches ne g h at (omega arith))

-- The run ends before the text does.
abbrev Halts : Feed → Type 0
Halts (typed state) = ⊥
Halts (found m rest) = Unit
Halts crashed = Unit

-- One character of a run: the state goes on at item `i`, and `i` is not past the items.
feed-Halts_step :
    (matches : List HotstringMatch) (state : Option Paths) (c : ℕ) (rest : Text) (last : Bool)
    (id i : ℕ)
    → Proceeds last id i (process matches state (c ∷ []))
    → ((ps : Paths) → last ≡ false → has_path id i ps ≡ true → Halts (feed matches (some ps) rest))
    → Halts (feed matches state (c ∷ rest))
unfolding feed
feed-Halts_step matches state c rest last id i h next = go (process matches state (c ∷ [])) h
  where
    go : (r : Round) → Proceeds last id i r → Halts (feed_round r rest (λ s'. feed matches s' rest))
    go (advance ps) k = next ps k.0 k.1
    go (matched m) k = tt
    go panic k = tt

module _ (matches : List HotstringMatch) (id : ℕ) (m : HotstringMatch)
    (at : get_elem? matches id ≡ some m) where
  -- With a path at item `i`, typing what spells the items from there ends the run.
  feed-Halts_on :
      (its : List RollingItem) (i : ℕ) (ps : Paths) (v rest : Text)
      → i + length its ≡ length m.items
      → its ≢ []
      → ((k : ℕ) (item : RollingItem)
          → get_elem? its k ≡ some item
          → get_elem? m.items (i + k) ≡ some item)
      → Spells its v
      → has_path id i ps ≡ true
      → Halts (feed matches (some ps) (v ++ rest))
  feed-Halts_on [] i ps v rest e ne g s has = absurd (ne refl)
  feed-Halts_on (item ∷ its) i ps [] rest e ne g s has = absurd s
  feed-Halts_on (item ∷ its) i ps (c ∷ v) rest e ne g s has =
      feed-Halts_step matches (some ps) c (v ++ rest) _ id (i + 1)
        (process-Proceeds_on matches id m at i item (c ∷ []) ps (rw add-zero at (g 0 item refl)) s.0
          has)
        λ ps' more has'.
          feed-Halts_on its (i + 1) ps' v rest (omega arith) (λ f. no_end (ap length f) more)
            (λ k x here. let f : i + 1 + k ≡ i + suc k = omega arith in rw f (g (suc k) x here)) s.1
            has'
    where
      no_end : length its ≡ 0 → leb (length m.items) (i + 1) ≡ false → ⊥
      no_end f more = ground arith

  feed-Halts_new :
      (item : RollingItem) (its : List RollingItem) (state : Option Paths) (v rest : Text)
      → m.items ≡ item ∷ its
      → item ≢ word_separator
      → Spells (item ∷ its) v
      → Halts (feed matches state (v ++ rest))
  feed-Halts_new item its state [] rest e ne s = absurd s
  feed-Halts_new item its state (c ∷ v) rest e ne s =
      feed-Halts_step matches state c (v ++ rest) _ id 1
        (process-Proceeds_new matches id m at state item (c ∷ []) ne (rw e) s.0)
        λ ps more has.
          feed-Halts_on its 1 ps v rest (rw e (omega arith)) (λ f. no_end (ap length f) more)
            (λ k x here. let f : 1 + k ≡ suc k = omega arith in rw (f, e) here) s.1 has
    where
      no_end : length its ≡ 0 → leb (length m.items) 1 ≡ false → ⊥
      no_end f more = let g : length m.items ≡ suc (length its) = rw e in ground arith

  feed-Halts_after :
      (item : RollingItem) (its : List RollingItem) (state : Option Paths) (u v rest : Text)
      → m.items ≡ item ∷ its
      → item ≢ word_separator
      → Spells (item ∷ its) v
      → Halts (feed matches state (u ++ (v ++ rest)))
  unfolding feed
  feed-Halts_after item its state [] v rest e ne s = feed-Halts_new item its state v rest e ne s
  feed-Halts_after item its state (c ∷ u) v rest e ne s =
      go (process matches state (c ∷ []))
        (λ ps. feed-Halts_after item its (some ps) u v rest e ne s)
    where
      go :
          (r : Round)
          → ((ps : Paths) → Halts (feed matches (some ps) (u ++ (v ++ rest))))
          → Halts (feed_round r (u ++ (v ++ rest)) (λ s'. feed matches s' (u ++ (v ++ rest))))
      go (advance ps) k = k ps
      go (matched n) k = tt
      go panic k = tt

-- Of the hotstrings, take one whose items do not begin with a boundary. Wherever what spells its
-- items is typed, a hotstring is found there at the latest: the run from the start of the input
-- does not go through that text without a match.
pub feed-finds_spelled :
    (matches : List HotstringMatch) (id : ℕ) (m : HotstringMatch) (item : RollingItem)
    (its : List RollingItem) (u v rest : Text)
    → get_elem? matches id ≡ some m
    → m.items ≡ item ∷ its
    → item ≢ word_separator
    → Spells (item ∷ its) v
    → (n : HotstringMatch) × (left : Text) × (feed matches none (u ++ (v ++ rest)) ≡ found n left)
feed-finds_spelled matches id m item its u v rest at e ne s =
    go (feed matches none (u ++ (v ++ rest)))
      (feed-Halts_after matches id m at item its none u v rest e ne s)
      (feed-IsSound matches (u ++ (v ++ rest)))
  where
    go :
        (r : Feed)
        → Halts r
        → FeedIsSound matches (u ++ (v ++ rest)) r
        → (n : HotstringMatch) × (left : Text) × (r ≡ found n left)
    go (typed state) h k = absurd h
    go (found n left) h k = (n, left, refl)
    go crashed h k = absurd k
