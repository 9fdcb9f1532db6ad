-- ===== src/Handler/Lifetime/Leaves.antt =====
-- event_handler.rs: from its press to its release, a multi-purpose key leaves no key down.
use ahk_wayland.Prelude.{
  ◌≡◌, ◌≢◌, refl, ap, ◌∙◌, true, ◌||◌, none, some, List, [], ◌∷◌, ◌++◌, contains, contains-append,
  append-nil, map_get, map_insert, map_remove, arith, Bool-cases, inl, inr, All,
}
use ahk_wayland.Key.{Key}
use ahk_wayland.Event.{press, release, repeat, KeyEvent}
use ahk_wayland.Keyboard.{Held}
use ahk_wayland.Config.Types.{MultiPurposeKey}
use ahk_wayland.Handler.State.{EventHandler, MultiPurposeKeyState, Env}
use ahk_wayland.Handler.MultiPurpose.{
  KeyValues, repeat_at, repeat_state, release_state, force_held, force_all, has_press, presses,
  flush_timeout_keys, maintain_pressed_keys,
}
use ahk_wayland.Handler.MultiPurpose.Lifecycle.{
  replay_keys, replay_keys-append, Bounds, IsSettled, Keeps, repeat_at-Keeps, force_at-Keeps,
  release_at-leaves, nothing-Keeps,
}
use ahk_wayland.Handler.Dispatch.{Mapped, new_state, dispatch_multi_purpose}
use ahk_wayland.Handler.OnEvent.{maintain_and_flush}
use ahk_wayland.Handler.Lifetime.{
  Turn, again, other, own_event, take_turn, to_release, lifetime, others_press, IsOfOther,
}
use ahk_wayland.Handler.Lifetime.Turns.{
  maintain-repeat, maintain-release, maintain-other, replay_keys-presses, presses-retain,
  flush-repeated, with_state,
}

-- The key is the only one with a state, and it is not remembered as pressed.
record Tracks (k : Key) (st : MultiPurposeKeyState) (s : EventHandler) : Type 0 where
  tracked : s.multi_purpose_keys ≡ (k, st) ∷ []
  not_remembered : map_get k s.pressed_keys ≡ none

-- What these keys and values leave, if all that they press is allowed to be down.
more-Keeps :
    (before held : Held) (xs ys : KeyValues) (st : MultiPurposeKeyState)
    → Keeps before held (xs, st)
    → ((j : Key) → contains (presses ys) j ≡ true → before j ≡ true)
    → Keeps before held (xs ++ ys, st)
more-Keeps before held xs ys st kept allowed = record {
  settled = kept.settled;
  bounds = λ j h.
      let down = replay_keys-presses ys (replay_keys xs held) j (rw replay_keys-append at h) in
      elim (Bool-cases (replay_keys xs held j)) [
        | inl there ↦ kept.bounds j there
        | inr up ↦ let b = allowed j (rw up at down) in ground arith
      ];
}

-- A state of the key after a part of its life, and what is known of it.
abbrev Goes : Key → Held → Held → Mapped → Type 0
Goes k before held r = (st : MultiPurposeKeyState) × Tracks k st r.1 × Keeps before held (r.0, st)

module _ (k : Key) (st : MultiPurposeKeyState) (before held : Held) (settled : IsSettled st)
    (b : Bounds st before held) where
  flush-Goes :
      (kvs : KeyValues) (s : EventHandler)
      → Tracks k st s
      → ((j : Key) → contains (presses kvs) j ≡ true → before j ≡ true)
      → Goes k before held (flush_timeout_keys kvs s)
  unfolding flush_timeout_keys force_all force_held
  flush-Goes kvs s t allowed = elim (Bool-cases (has_press kvs)) [
    | inl some_press ↦
        rw (some_press, t.tracked)
          (
            (force_held st).1,
            record { tracked = refl; not_remembered = t.not_remembered },
            more-Keeps before held (force_all ((k, st) ∷ [])).0 _ (force_held st).1 forced
                (λ j h. allowed j (presses-retain _ kvs j h)),
          )
    | inr no_press ↦
        rw no_press
          (st, t, more-Keeps before held [] kvs st (nothing-Keeps st before held settled b) allowed)
  ]
    where
      forced : Keeps before held ((force_all ((k, st) ∷ [])).0, (force_held st).1)
      forced = rw append-nil (force_at-Keeps st.alone_timeout_at st before held refl settled b)

  other-Goes :
      (e : KeyEvent) (made : KeyValues) (s : EventHandler)
      → Tracks k st s
      → e.key ≢ k
      → ((j : Key) → contains (presses made) j ≡ true → before j ≡ true)
      → Goes k before held (maintain_and_flush e (made, s))
  other-Goes e made s t d allowed =
      let m = maintain-other k e.key e.value made s d in
      let tracked = m.0 ∙ t.tracked in
      rw tracked (
        flush-Goes _ _ (record { tracked = tracked; not_remembered = m.1 ∙ t.not_remembered })
          (λ j h. allowed j (rw m.2 at h)))

module _ (k : Key) (st : MultiPurposeKeyState) (s : EventHandler) (t : Tracks k st s) where
  own_state : map_get k s.multi_purpose_keys ≡ some st
  own_state = ap (map_get k) t.tracked ∙ ground arith

  own_event-repeat :
      (env : Env) (m : MultiPurposeKey)
      → own_event env m (record { key = k; value = repeat }) s
        ≡ ((repeat_state env.now st).0, with_state k (repeat_state env.now st).1 s)
  unfolding own_event dispatch_multi_purpose repeat_state
  own_event-repeat env m =
      let (kvs, st') = repeat_at env.now st.alone_timeout_at st in
      let inserted : map_insert k st' s.multi_purpose_keys ≡ (k, st') ∷ [] =
        ap (map_insert k st') t.tracked ∙ ground arith in
      rw (own_state, inserted, maintain-repeat k kvs (with_state k st' s) t.not_remembered)
        (flush-repeated k env.now st.alone_timeout_at st s)

  own_event-release :
      (env : Env) (m : MultiPurposeKey)
      → (own_event env m (record { key = k; value = release }) s).0 ≡ release_state env.now st
  unfolding own_event dispatch_multi_purpose
  own_event-release env m =
      let s' = record s { multi_purpose_keys = [] } in
      let removed : map_remove k s.multi_purpose_keys ≡ [] =
        ap (map_remove k) t.tracked ∙ ground arith in
      let r = maintain-release k (release_state env.now st) s' t.not_remembered in
      rw (own_state, removed, r.1) r.0

  own_event-repeat_Goes :
      (env : Env) (m : MultiPurposeKey) (before held : Held)
      → IsSettled st
      → Bounds st before held
      → Goes k before held (own_event env m (record { key = k; value = repeat }) s)
  unfolding repeat_state
  own_event-repeat_Goes env m before held settled b = rw (own_event-repeat env m) (
    (repeat_state env.now st).1,
    record { tracked = refl; not_remembered = t.not_remembered },
    repeat_at-Keeps env.now st.alone_timeout_at st before held refl settled b,
  )

take_turn-Goes :
    (m : MultiPurposeKey) (k : Key) (turn : Turn) (st : MultiPurposeKeyState) (s : EventHandler)
    (before held : Held)
    → Tracks k st s
    → IsSettled st
    → Bounds st before held
    → IsOfOther k turn
    → ((j : Key) → contains (others_press (turn ∷ [])) j ≡ true → before j ≡ true)
    → Goes k before held (take_turn m k turn s)
unfolding take_turn others_press
take_turn-Goes m k (again env) st s before held t settled b d allowed =
    own_event-repeat_Goes k st s t env m before held settled b
take_turn-Goes m k (other e made) st s before held t settled b d allowed =
    other-Goes k st before held settled b e made s t d
      (λ j h. allowed j (rw contains-append (ground arith)))

first_turn :
    (turn : Turn) (ts : List Turn) (i : Key)
    → contains (others_press (turn ∷ [])) i ≡ true
    → contains (others_press (turn ∷ ts)) i ≡ true
unfolding others_press
first_turn (again env) ts i h = absurd (cc h)
first_turn (other e made) ts i h =
    let p = rw contains-append at h in rw contains-append (ground arith)

later_turns :
    (turn : Turn) (ts : List Turn) (i : Key)
    → contains (others_press ts) i ≡ true
    → contains (others_press (turn ∷ ts)) i ≡ true
unfolding others_press
later_turns (again env) ts i h = h
later_turns (other e made) ts i h = rw contains-append (ground arith)

to_release-leaves :
    (env : Env) (m : MultiPurposeKey) (k : Key) (ts : List Turn) (st : MultiPurposeKeyState)
    (s : EventHandler) (before held : Held)
    → Tracks k st s
    → IsSettled st
    → Bounds st before held
    → All (IsOfOther k) ts
    → ((j : Key) → contains (others_press ts) j ≡ true → before j ≡ true)
    → (j : Key) → replay_keys (to_release env m k ts s) held j ≡ true
    → before j ≡ true
unfolding to_release release_state
to_release-leaves env m k [] st s before held t settled b others allowed j down =
    release_at-leaves env.now st.alone_timeout_at st before held refl settled b j
      (rw (own_event-release k st s t env m) at down)
to_release-leaves env m k (turn ∷ ts) st s before held t settled b others allowed j down =
    let (st', t', kept) =
      take_turn-Goes m k turn st s before held t settled b others.0
        (λ i h. allowed i (first_turn turn ts i h)) in
    to_release-leaves env m k ts st' _ before _ t' kept.settled kept.bounds others.1
      (λ i h. allowed i (later_turns turn ts i h)) j (rw replay_keys-append at down)

own_event-press :
    (env : Env) (m : MultiPurposeKey) (k : Key) (s : EventHandler)
    → s.multi_purpose_keys ≡ []
    → own_event env m (record { key = k; value = press }) s ≡ ([], with_state k (new_state env m) s)
unfolding own_event dispatch_multi_purpose maintain_pressed_keys flush_timeout_keys
own_event-press env m k s e =
    let inserted : map_insert k (new_state env m) s.multi_purpose_keys ≡ (k, new_state env m) ∷ [] =
      ap (map_insert k (new_state env m)) e in
    rw inserted refl

-- A multi-purpose key is pressed while no multi-purpose key has a state and the key itself is not
-- remembered as pressed. It is not pressed again before its release, and the modmaps give it the same
-- action until then. In between come its repeats and events of other keys, in any order and at any
-- times; of the others the modmaps make any keys and values, but no multi-purpose key. Then the keys
-- and values that are passed on to the keymaps, those of the release included, leave no key down but
-- those that were down before or that the other events press.
pub lifetime-leaves :
    (pressed_at env : Env) (m : MultiPurposeKey) (k : Key) (ts : List Turn) (s : EventHandler)
    (held : Held) (j : Key)
    → s.multi_purpose_keys ≡ []
    → map_get k s.pressed_keys ≡ none
    → All (IsOfOther k) ts
    → replay_keys (lifetime pressed_at env m k ts s) held j ≡ true
    → (held j || contains (others_press ts) j) ≡ true
unfolding lifetime
lifetime-leaves pressed_at env m k ts s held j empty free others down =
    to_release-leaves env m k ts (new_state pressed_at m) _
      (λ i. held i || contains (others_press ts) i) held
      (record { tracked = refl; not_remembered = free }) (λ up. absurd (cc up))
      (λ i h. ground arith) others (λ i h. ground arith) j
      (rw (own_event-press pressed_at m k s empty) at down)
