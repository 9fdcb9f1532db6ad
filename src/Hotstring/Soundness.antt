-- ===== src/Hotstring/Soundness.antt =====
-- hotstring.rs: `process` indexes nothing out of range, and every match is one that was typed.
use native.Mathlib.Nat.{add-zero}
use ahk_wayland.Prelude.{
  ℕ, suc, ◌+◌, ◌≡◌, refl, sym, ap, ◌∙◌, Bool, true, Option, none, some, List, [], ◌∷◌, ◌++◌, arith,
  Text, length, leb, get_elem?, All, All-append, append_assoc, append-nil, Bool-cases, inl, inr,
  is_some,
}
use ahk_wayland.Hotstring.{
  RollingItem, word_separator, char, char_insensitive, HotstringMatch, HotstringPath, Paths,
  item_matches, Round, advance, matched, panic, continue_path, take_item, continue_match,
  start_match, start_path, then_round, continue_paths, start_paths, prev_paths, process, Feed,
  typed, found, crashed, feed_round, feed,
}
use ahk_wayland.Hotstring.Spelling.{
  Spells, body, lead, take, get_elem?-body, length-body, Spells-step, take-all, IsPath, IsFound,
}

-- What a round or a run may end in after the text `w`.
abbrev pub RoundIsSound : List HotstringMatch → Text → Round → Type 0
RoundIsSound matches w (advance ps) = All (IsPath matches w) ps
RoundIsSound matches w (matched m) = IsFound matches w m
RoundIsSound matches w panic = ⊥

then_round-IsSound :
    (matches : List HotstringMatch) (w : Text) (r s : Round)
    → RoundIsSound matches w r
    → RoundIsSound matches w s
    → RoundIsSound matches w (then_round r s)
then_round-IsSound matches w (advance ps) (advance qs) h k = All-append (IsPath matches w) ps qs h k
then_round-IsSound matches w (advance ps) (matched m) h k = k
then_round-IsSound matches w (advance ps) panic h k = k
then_round-IsSound matches w (matched m) s h k = h
then_round-IsSound matches w panic s h k = h

-- One more character that the item at hand matches.
spell_on :
    (items : List RollingItem) (i k : ℕ) (item : RollingItem) (c : ℕ) (v : Text)
    → i ≡ lead items + k
    → Spells (take k (body items)) v
    → get_elem? items i ≡ some item
    → item_matches item (c ∷ []) ≡ true
    → Spells (take (suc k) (body items)) (v ++ c ∷ [])
spell_on items i k item c v e s g h =
    Spells-step (body items) k item c v s
      (sym (get_elem?-body items k) ∙ ap (get_elem? items) (sym e) ∙ g) h

spell_out :
    (items : List RollingItem) (i k : ℕ) (v : Text)
    → i ≡ lead items + k
    → leb (length items) (i + 1) ≡ true
    → Spells (take (suc k) (body items)) v
    → Spells (body items) v
spell_out items i k v e h s =
    let p : take (suc k) (body items) ≡ body items =
      take-all (body items) (suc k) (ground (arith, length-body items)) in
    rw p at s

-- The part that both loops share.
take_item-IsSound :
    (matches : List HotstringMatch) (w before v : Text) (c id i k : ℕ) (m : HotstringMatch)
    (item : Option RollingItem)
    → get_elem? matches id ≡ some m
    → w ≡ before ++ v
    → i ≡ lead m.items + k
    → Spells (take k (body m.items)) v
    → get_elem? m.items i ≡ item
    → RoundIsSound matches (w ++ c ∷ []) (take_item m id (i + 1) (v ++ c ∷ []) (c ∷ []) item)
unfolding take_item
take_item-IsSound matches w before v c id i k m none at eb ei s g = tt
take_item-IsSound matches w before v c id i k m (some item) at eb ei s g =
    elim (Bool-cases (item_matches item (c ∷ []))) [
      | inr no_match ↦ rw no_match tt
      | inl is_match ↦ rw is_match (elim (Bool-cases (leb (length m.items) (i + 1))) [
        | inl last ↦ rw last (record {
          id = id;
          at_id = at;
          before = before;
          chars = v ++ c ∷ [];
          ends = ap (λ t. t ++ c ∷ []) eb ∙ append_assoc before v (c ∷ []);
          spelled = spell_out m.items i k _ ei last (spell_on m.items i k item c v ei s g is_match);
        })
        | inr more ↦ rw more (
          record {
            hotstring = m;
            at_id = at;
            in_range = ground arith;
            before = before;
            ends = ap (λ t. t ++ c ∷ []) eb ∙ append_assoc before v (c ∷ []);
            count = suc k;
            index = omega (arith, ei);
            spelled = spell_on m.items i k item c v ei s g is_match;
          },
          tt,
        )
      ])
    ]

continue_path-IsSound :
    (matches : List HotstringMatch) (w : Text) (c : ℕ) (p : HotstringPath)
    → IsPath matches w p
    → RoundIsSound matches (w ++ c ∷ []) (continue_path matches (c ∷ []) p)
unfolding continue_path continue_match
continue_path-IsSound matches w c p h = rw h.at_id (
    take_item-IsSound matches w h.before p.chars_matched c p.match_id p.item_index h.count
      h.hotstring _ h.at_id h.ends h.index h.spelled refl)

continue_paths-IsSound :
    (matches : List HotstringMatch) (w : Text) (c : ℕ) (ps : Paths)
    → All (IsPath matches w) ps
    → RoundIsSound matches (w ++ c ∷ []) (continue_paths matches (c ∷ []) ps)
unfolding continue_paths
continue_paths-IsSound matches w c [] h = tt
continue_paths-IsSound matches w c (p ∷ ps) h =
    then_round-IsSound matches _ (continue_path matches (c ∷ []) p) _
      (continue_path-IsSound matches w c p h.0) (continue_paths-IsSound matches w c ps h.1)

start_match-IsSound :
    (matches : List HotstringMatch) (w : Text) (b : Bool) (c idx : ℕ) (m : HotstringMatch)
    (items : List RollingItem)
    → m.items ≡ items
    → get_elem? matches idx ≡ some m
    → RoundIsSound matches (w ++ c ∷ []) (start_match b (c ∷ []) idx m (get_elem? items 0))
unfolding start_match
start_match-IsSound matches w b c idx m [] e at = tt
start_match-IsSound matches w b c idx m (word_separator ∷ items) e at = ground (arith, started)
  where
    started :
        RoundIsSound matches
          (w ++ c ∷ [])
          (take_item m idx 2 (c ∷ []) (c ∷ []) (get_elem? m.items 1))
    started = take_item-IsSound matches w w [] c idx 1 0 m _ at (sym (append-nil w)) (rw e) tt refl
start_match-IsSound matches w b c idx m (char d ∷ items) e at =
    take_item-IsSound matches w w [] c idx 0 0 m _ at (sym (append-nil w)) (rw e) tt (rw e)
start_match-IsSound matches w b c idx m (char_insensitive d ∷ items) e at =
    take_item-IsSound matches w w [] c idx 0 0 m _ at (sym (append-nil w)) (rw e) tt (rw e)

start_paths-IsSound :
    (matches : List HotstringMatch) (w : Text) (b : Bool) (c idx : ℕ) (ms : List HotstringMatch)
    → ((k : ℕ) (m : HotstringMatch)
        → get_elem? ms k ≡ some m
        → get_elem? matches (idx + k) ≡ some m)
    → RoundIsSound matches (w ++ c ∷ []) (start_paths b (c ∷ []) idx ms)
unfolding start_paths start_path
start_paths-IsSound matches w b c idx [] h = tt
start_paths-IsSound matches w b c idx (m ∷ ms) h =
    then_round-IsSound matches _ (start_match b (c ∷ []) idx m (get_elem? m.items 0)) _
      (start_match-IsSound matches w b c idx m m.items refl (rw add-zero at (h 0 m refl)))
      (start_paths-IsSound matches w b c (idx + 1) ms
        (λ k n g. let e : idx + 1 + k ≡ idx + suc k = omega arith in rw e (h (suc k) n g)))

-- If the state's paths stand for the text typed so far, one more character neither panics nor
-- loses that: the new paths stand for the longer text, and a match is a hotstring whose items the
-- end of that text spells.
pub process-IsSound :
    (matches : List HotstringMatch) (w : Text) (state : Option Paths) (c : ℕ)
    → All (IsPath matches w) (prev_paths state)
    → RoundIsSound matches (w ++ c ∷ []) (process matches state (c ∷ []))
unfolding process
process-IsSound matches w state c h =
    then_round-IsSound matches _ (continue_paths matches (c ∷ []) (prev_paths state)) _
      (continue_paths-IsSound matches w c (prev_paths state) h)
      (start_paths-IsSound matches w (is_some state) c 0 matches
        (λ k m g. let e : 0 + k ≡ k = omega arith in rw e g))

-- What a run over the text `w ++ rest`, of which `w` has been typed, may end in.
abbrev pub FeedIsSound : List HotstringMatch → Text → Feed → Type 0
FeedIsSound matches w (typed state) = All (IsPath matches w) (prev_paths state)
FeedIsSound matches w (found m rest) =
    (before : Text) × (w ≡ before ++ rest) × IsFound matches before m
FeedIsSound matches w crashed = ⊥

feed_round-IsSound :
    (matches : List HotstringMatch) (w : Text) (c : ℕ) (rest : Text) (r : Round)
    (k : Option Paths → Feed)
    → RoundIsSound matches (w ++ c ∷ []) r
    → ((ps : Paths)
        → All (IsPath matches (w ++ c ∷ [])) ps
        → FeedIsSound matches (w ++ c ∷ rest) (k (some ps)))
    → FeedIsSound matches (w ++ c ∷ rest) (feed_round r rest k)
feed_round-IsSound matches w c rest (advance ps) k h next = next ps h
feed_round-IsSound matches w c rest (matched m) k h next =
    (w ++ c ∷ [], sym (append_assoc w (c ∷ []) rest), h)
feed_round-IsSound matches w c rest panic k h next = h

feed-IsSound_from :
    (matches : List HotstringMatch) (w : Text) (state : Option Paths) (rest : Text)
    → All (IsPath matches w) (prev_paths state)
    → FeedIsSound matches (w ++ rest) (feed matches state rest)
unfolding feed
feed-IsSound_from matches w state [] h = rw append-nil h
feed-IsSound_from matches w state (c ∷ rest) h =
    feed_round-IsSound matches w c rest _ _ (process-IsSound matches w state c h) λ ps hp.
      rw (append_assoc w (c ∷ []) rest) at
        (feed-IsSound_from matches (w ++ c ∷ []) (some ps) rest hp)

-- From the start of the input, typing any text never indexes out of range. Where a hotstring is
-- found, the text up to there ends in characters that spell its items one by one (a leading
-- boundary item apart), and the text after it is what is left.
pub feed-IsSound :
    (matches : List HotstringMatch) (w : Text) → FeedIsSound matches w (feed matches none w)
feed-IsSound matches w = feed-IsSound_from matches [] none w tt
