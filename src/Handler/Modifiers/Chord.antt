-- ===== src/Handler/Modifiers/Chord.antt =====
-- event_handler.rs, send_key_press_and_release: which modifiers are down when the key goes down.
use ahk_wayland.Prelude.{
  ℕ, zero, suc, ◌≡◌, refl, Bool, true, false, not, ◌&&◌, ◌||◌, some, List, [], ◌∷◌, ◌++◌, ◌==◌,
  contains, get_elem?, arith, Bool-cases, inl, inr,
}
use ahk_wayland.Key.{
  Key, key_leftshift, key_rightshift, key_leftctrl, key_rightctrl, key_leftalt, key_rightalt,
  key_leftmeta, key_rightmeta, is_modifier_key,
}
use ahk_wayland.Event.{press, Action, key_action}
use ahk_wayland.Keyboard.{Held, replay}
use ahk_wayland.Config.Types.{Modifier, shift, control, alt, windows, key, KeyPress}
use ahk_wayland.Handler.State.{EventHandler}
use ahk_wayland.Handler.Modifiers.{
  stands_for, contains_modifier, match_modifier, key_of, missing_modifiers,
  send_key_press_and_release,
}
use ahk_wayland.Handler.Modifiers.Tap.{
  opening, closing, to_release, to_press, contains-to_press, contains-to_release, IsSynced,
  replay-opening, send_key_press_and_release-emits, missing-not_held,
}

-- Some key that the modifier stands for is down on the device.
abbrev pub IsDown : Held → Modifier → Type 0
IsDown held m = (j : Key) × (stands_for m j ≡ true) × (held j ≡ true)

stands_for-contains :
    (ws : List Modifier) (i : ℕ) (m : Modifier) (j : Key)
    → get_elem? ws i ≡ some m
    → stands_for m j ≡ true
    → contains_modifier ws j ≡ true
unfolding contains_modifier
stands_for-contains [] i m j g h = ground arith
stands_for-contains (w ∷ ws) zero m j g h = let e : w ≡ m = cc in rw (e, h)
stands_for-contains (w ∷ ws) (suc i) m j g h = rw (stands_for-contains ws i m j g h) (ground arith)

-- A modifier that is not held has its key among the missing ones.
missing-contains :
    (held : List Key) (ws : List Modifier) (i : ℕ) (m : Modifier)
    → get_elem? ws i ≡ some m
    → match_modifier held m ≡ false
    → contains (missing_modifiers held ws) (key_of m) ≡ true
unfolding missing_modifiers
missing-contains held [] i m g h = ground arith
missing-contains held (w ∷ ws) zero m g h = let e : w ≡ m = cc in rw (e, h) (ground arith)
missing-contains held (w ∷ ws) (suc i) m g h = elim (Bool-cases (match_modifier held w)) [
  | inl held_too ↦ rw held_too (missing-contains held ws i m g h)
  | inr missed ↦ rw (missed, missing-contains held ws i m g h) (ground arith)
]

stands_for-key_of : (m : Modifier) → stands_for m (key_of m) ≡ true
unfolding stands_for key_of
stands_for-key_of shift = refl
stands_for-key_of control = refl
stands_for-key_of alt = refl
stands_for-key_of windows = refl
stands_for-key_of (key k) = ground arith

-- A modifier that is held is so by a key that it stands for.
match_modifier-key :
    (held : List Key) (m : Modifier)
    → match_modifier held m ≡ true
    → (j : Key) × (stands_for m j ≡ true) × (contains held j ≡ true)
unfolding match_modifier stands_for
match_modifier-key held shift h = elim (Bool-cases (contains held key_leftshift)) [
  | inl left ↦ (key_leftshift, refl, left)
  | inr other ↦ (key_rightshift, refl, ground arith)
]
match_modifier-key held control h = elim (Bool-cases (contains held key_leftctrl)) [
  | inl left ↦ (key_leftctrl, refl, left)
  | inr other ↦ (key_rightctrl, refl, ground arith)
]
match_modifier-key held alt h = elim (Bool-cases (contains held key_leftalt)) [
  | inl left ↦ (key_leftalt, refl, left)
  | inr other ↦ (key_rightalt, refl, ground arith)
]
match_modifier-key held windows h = elim (Bool-cases (contains held key_leftmeta)) [
  | inl left ↦ (key_leftmeta, refl, left)
  | inr other ↦ (key_rightmeta, refl, ground arith)
]
match_modifier-key held (key k) h = (k, ground arith, h)

-- All the keys of a modifier are modifier keys if the key that is pressed for it is one.
stands_for-modifier :
    (m : Modifier) (j : Key)
    → is_modifier_key (key_of m) ≡ true
    → stands_for m j ≡ true
    → is_modifier_key j ≡ true
unfolding stands_for key_of is_modifier_key
stands_for-modifier shift j h e = ground arith
stands_for-modifier control j h e = ground arith
stands_for-modifier alt j h e = ground arith
stands_for-modifier windows j h e = ground arith
stands_for-modifier (key k) j h e = let q : j ≡ k = ground arith in rw q h

module _ (p : KeyPress) (s : EventHandler) (held : Held) (synced : IsSynced s held) where
  abbrev pub at_press : Held
  at_press = replay (opening (to_release s p) (to_press s p)) held

  none_else_values :
      (r m h k o i e w : Bool)
      → r ≡ ((k && not w) && (i && not e))
      → m ≡ (o && i)
      → h ≡ k
      → i ≡ true
      → (o ≡ true → w ≡ true)
      → (not r && (m || h)) ≡ true
      → (w || e) ≡ true
  none_else_values r m h k o i e w er em sync is_mod wanted h' = ground arith

  missing-wanted :
      (ws : List Modifier) (j : Key)
      → contains (missing_modifiers s.modifiers ws) j ≡ true
      → contains_modifier ws j ≡ true
  unfolding missing_modifiers contains_modifier
  missing-wanted [] j h = h
  missing-wanted (m ∷ ws) j h = elim (Bool-cases (match_modifier s.modifiers m)) [
    | inl matched ↦ rw (missing-wanted ws j (rw matched at h)) (ground arith)
    | inr missed ↦ elim (Bool-cases (key_of m == j)) [
      | inl same ↦ let e : key_of m ≡ j = ground arith in rw (← e) (rw (stands_for-key_of m))
      | inr other ↦ rw (missing-wanted ws j (rw (missed, other) at h)) (ground arith)
    ]
  ]

  at_press-none_else :
      (j : Key)
      → is_modifier_key j ≡ true
      → at_press j ≡ true
      → (contains_modifier p.modifiers j || contains s.extra_modifiers j) ≡ true
  at_press-none_else j i h =
      none_else_values (contains (to_release s p) j) (contains (to_press s p) j) (held j)
        (contains s.modifiers j) (contains (missing_modifiers s.modifiers p.modifiers) j)
        (is_modifier_key j) (contains s.extra_modifiers j) (contains_modifier p.modifiers j)
        (contains-to_release s p j) (contains-to_press s p j) (synced j i) i
        (missing-wanted p.modifiers j) (rw replay-opening at h)

  kept :
      (m : Modifier) (n : ℕ) (j : Key)
      → get_elem? p.modifiers n ≡ some m
      → is_modifier_key j ≡ true
      → stands_for m j ≡ true
      → contains s.modifiers j ≡ true
      → at_press j ≡ true
  kept m n j g i stands has =
      let w = stands_for-contains p.modifiers n m j g stands in
      rw (replay-opening, contains-to_release s p j, synced j i, has, w) (ground arith)

  pressed :
      (m : Modifier) (n : ℕ)
      → get_elem? p.modifiers n ≡ some m
      → is_modifier_key (key_of m) ≡ true
      → match_modifier s.modifiers m ≡ false
      → at_press (key_of m) ≡ true
  pressed m n g i missed =
      let c = missing-contains s.modifiers p.modifiers n m g missed in
      let out = missing-not_held s.modifiers p.modifiers (key_of m) c in
      rw (
        replay-opening,
        contains-to_release s p (key_of m),
        contains-to_press s p (key_of m),
        out,
        c,
        i,
      )

  at_press-all :
      (n : ℕ) (m : Modifier)
      → get_elem? p.modifiers n ≡ some m
      → is_modifier_key (key_of m) ≡ true
      → IsDown at_press m
  at_press-all n m g i = elim (Bool-cases (match_modifier s.modifiers m)) [
    | inl matched ↦
        let (j, stands, has) = match_modifier-key s.modifiers m matched in
        (j, stands, kept m n j g (stands_for-modifier m j i stands) stands has)
    | inr missed ↦ (key_of m, stands_for-key_of m, pressed m n g i missed)
  ]

-- When the key of a key press goes down, seen from a device in step with the handler, every
-- modifier of the key press whose key is a modifier key is down, by one of its keys; and a
-- modifier key that is down is one that the key press names or one of the extra modifiers that
-- are let through.
pub send_key_press_and_release-chord :
    (p : KeyPress) (s : EventHandler) (held : Held)
    → IsSynced s held
    → (before after : List Action) × (send_key_press_and_release p s
        ≡ record s { actions = s.actions ++ (before ++ key_action p.key press ∷ after) })
      × ((n : ℕ) (m : Modifier)
          → get_elem? p.modifiers n ≡ some m
          → is_modifier_key (key_of m) ≡ true
          → IsDown (replay before held) m)
      × ((j : Key)
          → is_modifier_key j ≡ true
          → replay before held j ≡ true
          → (contains_modifier p.modifiers j || contains s.extra_modifiers j) ≡ true)
send_key_press_and_release-chord p s held synced = (
  opening (to_release s p) (to_press s p),
  closing (to_release s p) (to_press s p) p.key s.keypress_delay,
  send_key_press_and_release-emits p s,
  at_press-all p s held synced,
  at_press-none_else p s held synced,
)
