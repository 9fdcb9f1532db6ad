-- ===== src/Handler/Modifiers/Tap.antt =====
-- event_handler.rs, send_key_press_and_release: what the output device shows of a tap, seen from a
-- device whose modifiers are those that the handler believes to be held.
use ahk_wayland.Prelude.{
  ℕ, ◌≡◌, refl, ap, ◌∙◌, Bool, true, false, not, ◌&&◌, ◌||◌, List, [], ◌∷◌, ◌++◌, ◌==◌, contains,
  contains-retain, retain, arith, append_assoc, append-nil, Bool-cases, inl, inr,
}
use ahk_wayland.Key.{Key, is_modifier_key}
use ahk_wayland.Event.{KeyValue, press, release, Action, delay, key_action}
use ahk_wayland.Keyboard.{
  Held, apply, replay, replay-append, each_key, replay-press, replay-release,
}
use ahk_wayland.Config.Types.{Modifier, shift, control, alt, windows, key, KeyPress}
use ahk_wayland.Handler.State.{EventHandler, send_key, send_keys}
use ahk_wayland.Handler.Modifiers.{
  contains_modifier, match_modifier, key_of, extra_modifiers, missing_modifiers, tap_with,
  send_key_press_and_release,
}

abbrev pub emits : EventHandler → List Action → EventHandler
emits s xs = record s { actions = s.actions ++ xs }

send_keys-emits :
    (ks : List Key) (v : KeyValue) (s : EventHandler) → send_keys ks v s ≡ emits s (each_key v ks)
unfolding send_keys
send_keys-emits [] v s = rw append-nil
send_keys-emits (k ∷ ks) v s =
    send_keys-emits ks v (send_key k v s)
    ∙ ap (λ (xs : List Action). record s { actions = xs })
        (append_assoc s.actions (key_action k v ∷ []) (each_key v ks))

-- What is sent before the key goes down, and after it.
abbrev pub opening : List Key → List Key → List Action
opening extra missing = each_key press missing ++ each_key release extra

abbrev pub closing : List Key → List Key → Key → ℕ → List Action
closing extra missing k d =
    key_action k release
    ∷ (delay d ∷ (each_key press extra ++ (delay d ∷ each_key release missing)))

tap_with-emits :
    (extra missing : List Key) (k : Key) (s : EventHandler)
    → tap_with extra missing k s
      ≡ emits s
          (opening extra missing ++ (key_action k press ∷ closing extra missing k s.keypress_delay))
unfolding tap_with
tap_with-emits extra missing k s = simp (send_keys-emits, append_assoc)

-- The lists of the two modifiers that are made up for.
abbrev pub to_release : EventHandler → KeyPress → List Key
to_release s p =
    retain (λ k. is_modifier_key k && not (contains s.extra_modifiers k))
      (extra_modifiers s.modifiers p.modifiers)

abbrev pub to_press : EventHandler → KeyPress → List Key
to_press s p = retain is_modifier_key (missing_modifiers s.modifiers p.modifiers)

pub send_key_press_and_release-emits :
    (p : KeyPress) (s : EventHandler)
    → send_key_press_and_release p s
      ≡ emits s (
          opening (to_release s p) (to_press s p)
          ++ (key_action p.key press
              ∷ closing (to_release s p) (to_press s p) p.key s.keypress_delay))
unfolding send_key_press_and_release
send_key_press_and_release-emits p s = tap_with-emits (to_release s p) (to_press s p) p.key s

contains-extra :
    (held : List Key) (ws : List Modifier) (j : Key)
    → contains (extra_modifiers held ws) j ≡ (contains held j && not (contains_modifier ws j))
unfolding extra_modifiers
contains-extra held ws j = contains-retain _ held j

missing-not_held_one :
    (held : List Key) (m : Modifier)
    → match_modifier held m ≡ false
    → contains held (key_of m) ≡ false
unfolding match_modifier key_of
missing-not_held_one held shift h = ground arith
missing-not_held_one held control h = ground arith
missing-not_held_one held alt h = ground arith
missing-not_held_one held windows h = ground arith
missing-not_held_one held (key k) h = h

pub missing-not_held :
    (held : List Key) (ws : List Modifier) (j : Key)
    → contains (missing_modifiers held ws) j ≡ true
    → contains held j ≡ false
unfolding missing_modifiers
missing-not_held held [] j h = ground arith
missing-not_held held (m ∷ ws) j h = elim (Bool-cases (match_modifier held m)) [
  | inl matched ↦ missing-not_held held ws j (rw matched at h)
  | inr missed ↦ elim (Bool-cases (key_of m == j)) [
    | inl same ↦ let e : key_of m ≡ j = ground arith in rw e at (missing-not_held_one held m missed)
    | inr other ↦ missing-not_held held ws j (rw (missed, other) at h)
  ]
]

pub contains-to_press :
    (s : EventHandler) (p : KeyPress) (j : Key)
    → contains (to_press s p) j
      ≡ (contains (missing_modifiers s.modifiers p.modifiers) j && is_modifier_key j)
contains-to_press s p j = contains-retain is_modifier_key _ j

pub contains-to_release :
    (s : EventHandler) (p : KeyPress) (j : Key)
    → contains (to_release s p) j ≡ (
        (contains s.modifiers j && not (contains_modifier p.modifiers j))
        && (is_modifier_key j && not (contains s.extra_modifiers j)))
contains-to_release s p j =
    contains-retain _ (extra_modifiers s.modifiers p.modifiers) j
    ∙ ap (λ (b : Bool). b && (is_modifier_key j && not (contains s.extra_modifiers j)))
        (contains-extra s.modifiers p.modifiers j)

-- The device's modifier keys are down just where the handler has them in its set.
abbrev pub IsSynced : EventHandler → Held → Type 0
IsSynced s held = (j : Key) → is_modifier_key j ≡ true → held j ≡ contains s.modifiers j

pub replay-opening :
    (extra missing : List Key) (held : Held) (j : Key)
    → replay (opening extra missing) held j
      ≡ (not (contains extra j) && (contains missing j || held j))
replay-opening extra missing held j = rw (replay-append, replay-release, replay-press)

replay-cons :
    (a : Action) (xs : List Action) (held : Held) → replay (a ∷ xs) held ≡ replay xs (apply a held)
unfolding replay
replay-cons a xs held = refl

replay-closing :
    (extra missing : List Key) (k : Key) (d : ℕ) (held : Held) (j : Key)
    → replay (key_action k press ∷ closing extra missing k d) held j
      ≡ (not (contains missing j) && (contains extra j || (not (k == j) && held j)))
replay-closing extra missing k d held j =
    rw
      (
        replay-cons, replay-cons, replay-cons, replay-append, replay-cons, replay-release,
        replay-press,
      )
      (ground arith)

-- A tap of a key that is no modifier, seen from a device in step with the handler: the whole of
-- what is sent leaves the tapped key up and every other key, each modifier included, as it was.
pub send_key_press_and_release-restores :
    (p : KeyPress) (s : EventHandler) (held : Held)
    → IsSynced s held
    → is_modifier_key p.key ≡ false
    → (xs : List Action) × (send_key_press_and_release p s ≡ record s { actions = s.actions ++ xs })
      × ((j : Key) → replay xs held j ≡ (not (p.key == j) && held j))
send_key_press_and_release-restores p s held synced plain = (
  opening (to_release s p) (to_press s p)
      ++ (key_action p.key press ∷ closing (to_release s p) (to_press s p) p.key s.keypress_delay),
  send_key_press_and_release-emits p s,
  λ j. replay-whole j,
)
  where
    not_tapped : (j : Key) → (p.key == j) ≡ true → is_modifier_key j ≡ false
    not_tapped j e = let q : p.key ≡ j = ground arith in rw q at plain

    values :
        (r m t h k o : Bool) (i e w : Bool)
        → r ≡ ((k && not w) && (i && not e))
        → m ≡ (o && i)
        → (i ≡ true → h ≡ k)
        → (o ≡ true → k ≡ false)
        → (t ≡ true → i ≡ false)
        → (not m && (r || (not t && (not r && (m || h))))) ≡ (not t && h)
    values r m t h k o i e w er em sync gone tapped = ground arith

    replay-whole :
        (j : Key)
        → replay
            (opening (to_release s p) (to_press s p)
              ++ (key_action p.key press
                  ∷ closing (to_release s p) (to_press s p) p.key s.keypress_delay))
            held
            j
          ≡ (not (p.key == j) && held j)
    replay-whole j =
        rw (replay-append, replay-closing, replay-opening)
          (values (contains (to_release s p) j) (contains (to_press s p) j) (p.key == j) (held j)
            (contains s.modifiers j) (contains (missing_modifiers s.modifiers p.modifiers) j)
            (is_modifier_key j) (contains s.extra_modifiers j) (contains_modifier p.modifiers j)
            (contains-to_release s p j) (contains-to_press s p j) (synced j)
            (missing-not_held s.modifiers p.modifiers j) (not_tapped j))
