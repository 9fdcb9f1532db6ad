-- ===== src/Handler/Lifetime/Turns.antt =====
-- event_handler.rs, maintain_pressed_keys and flush_timeout_keys: what they do to the keys and values
-- of one event while a multi-purpose key is down.
use ahk_wayland.Prelude.{
  ℕ, ◌≡◌, ◌≢◌, refl, ap, Bool, true, false, not, ◌&&◌, ◌||◌, Option, none, some, List, [], ◌∷◌,
  contains, retain, map_get, map_get-insert, map_get-remove, arith, Bool-cases, inl, inr,
  if◌then◌else◌,
}
use ahk_wayland.Key.{Key}
use ahk_wayland.Event.{KeyValue, press, release, repeat, value_eq}
use ahk_wayland.Keyboard.{Held, replay}
use ahk_wayland.Config.Types.{into_vec}
use ahk_wayland.Handler.State.{EventHandler, MultiPurposeKeyState}
use ahk_wayland.Handler.MultiPurpose.{
  KeyValues, with_value, held_first, repeat_at, force_at, force_held, force_all, has_press, presses,
  flush_timeout_keys, is_before, maintain_one, maintain_pressed_keys, sort_by, modifiers_first,
}
use ahk_wayland.Handler.MultiPurpose.Lifecycle.{replay_keys}

pub maintain-repeat :
    (k : Key) (kvs : KeyValues) (s : EventHandler)
    → map_get k s.pressed_keys ≡ none
    → maintain_pressed_keys k repeat kvs s ≡ (kvs, s)
unfolding maintain_pressed_keys maintain_one
maintain-repeat k [] s e = refl
maintain-repeat k ((j, press) ∷ []) s e = refl
maintain-repeat k ((j, release) ∷ []) s e = refl
maintain-repeat k ((j, repeat) ∷ []) s e = rw e refl
maintain-repeat k (a ∷ b ∷ rest) s e = refl

pub maintain-release :
    (k : Key) (kvs : KeyValues) (s : EventHandler)
    → map_get k s.pressed_keys ≡ none
    → ((maintain_pressed_keys k release kvs s).0 ≡ kvs)
      × ((maintain_pressed_keys k release kvs s).1.multi_purpose_keys ≡ s.multi_purpose_keys)
unfolding maintain_pressed_keys maintain_one
maintain-release k [] s e = (refl, refl)
maintain-release k ((j, press) ∷ []) s e = (refl, refl)
maintain-release k ((j, release) ∷ []) s e = (rw e refl, refl)
maintain-release k ((j, repeat) ∷ []) s e = (refl, refl)
maintain-release k (a ∷ b ∷ rest) s e = (refl, refl)

maintain_one-other :
    (k i : Key) (v : KeyValue) (j : Key) (s : EventHandler)
    → i ≢ k
    → ((maintain_one i v j s).1.multi_purpose_keys ≡ s.multi_purpose_keys)
      × (map_get k (maintain_one i v j s).1.pressed_keys ≡ map_get k s.pressed_keys)
      × (presses (maintain_one i v j s).0 ≡ presses ((j, v) ∷ []))
unfolding maintain_one presses
maintain_one-other k i press j s d =
    (refl, ground (arith, map_get-insert i j s.pressed_keys k), refl)
maintain_one-other k i release j s d =
    (refl, ground (arith, map_get-remove i s.pressed_keys k), refl)
maintain_one-other k i repeat j s d = (refl, refl, refl)

pub maintain-other :
    (k i : Key) (v : KeyValue) (made : KeyValues) (s : EventHandler)
    → i ≢ k
    → ((maintain_pressed_keys i v made s).1.multi_purpose_keys ≡ s.multi_purpose_keys)
      × (map_get k (maintain_pressed_keys i v made s).1.pressed_keys ≡ map_get k s.pressed_keys)
      × (presses (maintain_pressed_keys i v made s).0 ≡ presses made)
unfolding maintain_pressed_keys
maintain-other k i v [] s d = (refl, refl, refl)
maintain-other k i press ((j, press) ∷ []) s d = maintain_one-other k i press j s d
maintain-other k i press ((j, release) ∷ []) s d = (refl, refl, refl)
maintain-other k i press ((j, repeat) ∷ []) s d = (refl, refl, refl)
maintain-other k i release ((j, press) ∷ []) s d = (refl, refl, refl)
maintain-other k i release ((j, release) ∷ []) s d = maintain_one-other k i release j s d
maintain-other k i release ((j, repeat) ∷ []) s d = (refl, refl, refl)
maintain-other k i repeat ((j, press) ∷ []) s d = (refl, refl, refl)
maintain-other k i repeat ((j, release) ∷ []) s d = (refl, refl, refl)
maintain-other k i repeat ((j, repeat) ∷ []) s d = maintain_one-other k i repeat j s d
maintain-other k i v (a ∷ b ∷ rest) s d = (refl, refl, refl)

-- What is down after some keys and values was down before, or is pressed by them.
pub replay_keys-presses :
    (kvs : KeyValues) (held : Held) (j : Key)
    → replay_keys kvs held j ≡ true
    → (held j || contains (presses kvs) j) ≡ true
unfolding replay presses
replay_keys-presses [] held j h = ground arith
replay_keys-presses ((k, press) ∷ kvs) held j h = ground (arith, replay_keys-presses kvs _ j h)
replay_keys-presses ((k, release) ∷ kvs) held j h = ground (arith, replay_keys-presses kvs _ j h)
replay_keys-presses ((k, repeat) ∷ kvs) held j h = replay_keys-presses kvs held j h

pub presses-retain :
    (p : Key × KeyValue → Bool) (kvs : KeyValues) (j : Key)
    → contains (presses (retain p kvs)) j ≡ true
    → contains (presses kvs) j ≡ true
unfolding presses
presses-retain p [] j h = h
presses-retain p ((k, press) ∷ kvs) j h = elim (Bool-cases (p (k, press))) [
  | inl kept ↦ ground (arith, rw kept at h, presses-retain p kvs j)
  | inr left ↦ ground (arith, presses-retain p kvs j (rw left at h))
]
presses-retain p ((k, release) ∷ kvs) j h = elim (Bool-cases (p (k, release))) [
  | inl kept ↦ presses-retain p kvs j (rw kept at h)
  | inr left ↦ presses-retain p kvs j (rw left at h)
]
presses-retain p ((k, repeat) ∷ kvs) j h = elim (Bool-cases (p (k, repeat))) [
  | inl kept ↦ presses-retain p kvs j (rw kept at h)
  | inr left ↦ presses-retain p kvs j (rw left at h)
]

-- A flush with no state to force drops nothing.
retain-nothing_flushed :
    (kvs : KeyValues) → retain (λ kv. not (value_eq kv.1 press && contains [] kv.0)) kvs ≡ kvs
retain-nothing_flushed [] = refl
retain-nothing_flushed ((k, press) ∷ kvs) =
    ap (λ (xs : KeyValues). (k, press) ∷ xs) (retain-nothing_flushed kvs)
retain-nothing_flushed ((k, release) ∷ kvs) =
    ap (λ (xs : KeyValues). (k, release) ∷ xs) (retain-nothing_flushed kvs)
retain-nothing_flushed ((k, repeat) ∷ kvs) =
    ap (λ (xs : KeyValues). (k, repeat) ∷ xs) (retain-nothing_flushed kvs)

has_press-repeats : (ks : List Key) → has_press (with_value repeat ks) ≡ false
has_press-repeats [] = refl
has_press-repeats (k ∷ ks) = has_press-repeats ks

abbrev pub with_state : Key → MultiPurposeKeyState → EventHandler → EventHandler
with_state k st s = record s { multi_purpose_keys = (k, st) ∷ [] }

force_at-settled :
    (o : Option ℕ) (st : MultiPurposeKeyState)
    → o ≡ none
    → st.held_down ≡ true
    → force_at o st ≡ ([], st)
force_at-settled none st e down =
    ap
      (λ (b : Bool).
        if not b then (held_first press st, record st { held_down = true }) else ([], st))
      down
force_at-settled (some at) st e down = absurd (cc e)

flush-settled :
    (k : Key) (kvs : KeyValues) (st : MultiPurposeKeyState) (s : EventHandler)
    → st.alone_timeout_at ≡ none
    → st.held_down ≡ true
    → flush_timeout_keys kvs (with_state k st s) ≡ (kvs, with_state k st s)
unfolding flush_timeout_keys force_all force_held presses
flush-settled k kvs st s over down = elim (Bool-cases (has_press kvs)) [
  | inl some_press ↦
      rw (some_press, force_at-settled st.alone_timeout_at st over down)
        (ap (λ (xs : KeyValues). (xs, with_state k st s)) (retain-nothing_flushed kvs))
  | inr no_press ↦ rw no_press refl
]

pub flush-repeated :
    (k : Key) (now : ℕ) (o : Option ℕ) (st : MultiPurposeKeyState) (s : EventHandler)
    → let (kvs, st') = repeat_at now o st in
      flush_timeout_keys kvs (with_state k st' s) ≡ (kvs, with_state k st' s)
unfolding flush_timeout_keys
flush-repeated k now none st s =
    rw (has_press-repeats (sort_by modifiers_first (into_vec st.held))) refl
flush-repeated k now (some at) st s = elim (Bool-cases (is_before now at)) [
  | inl early ↦ rw early refl
  | inr late ↦ rw late (flush-settled k (held_first press st) _ s refl refl)
]
