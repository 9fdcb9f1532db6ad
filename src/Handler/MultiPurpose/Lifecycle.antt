-- ===== src/Handler/MultiPurpose/Lifecycle.antt =====
-- event_handler.rs: what the state of a multi-purpose key says of the keys that are down.
use ahk_wayland.Prelude.{
  ℕ, ◌≡◌, refl, ap, ◌∙◌, Bool, true, false, not, ◌&&◌, ◌||◌, Option, none, some, List, [], ◌∷◌,
  ◌++◌, map, ◌==◌, contains, arith, Bool-cases, inl, inr,
}
use ahk_wayland.Key.{Key}
use ahk_wayland.Event.{KeyValue, press, release, repeat, Action, key_action}
use ahk_wayland.Keyboard.{Held, replay, replay-append, each_key, replay-press, replay-release}
use ahk_wayland.Config.Types.{Keys, into_vec}
use ahk_wayland.Handler.State.{MultiPurposeKeyState}
use ahk_wayland.Handler.MultiPurpose.{
  KeyValues, modifiers_first, modifiers_last, insert_by, sort_by, with_value, held_first,
  press_and_release, is_gt, repeat_at, release_at, force_at, is_before,
}

-- The events as they are sent.
abbrev pub sent : KeyValues → List Action
sent kvs = map (λ kv. key_action kv.0 kv.1) kvs

abbrev pub replay_keys : KeyValues → Held → Held
replay_keys kvs held = replay (sent kvs) held

contains-insert_by :
    (cmp : Key → Key → _) (x : Key) (ys : List Key) (j : Key)
    → contains (insert_by cmp x ys) j ≡ (x == j || contains ys j)
unfolding insert_by
contains-insert_by cmp x [] j = refl
contains-insert_by cmp x (y ∷ ys) j = elim (Bool-cases (is_gt (cmp x y))) [
  | inl later ↦ rw (later, contains-insert_by cmp x ys j) (ground arith)
  | inr here ↦ rw here
]

contains-sort_by :
    (cmp : Key → Key → _) (ks : List Key) (j : Key) → contains (sort_by cmp ks) j ≡ contains ks j
unfolding sort_by
contains-sort_by cmp [] j = refl
contains-sort_by cmp (x ∷ xs) j =
    contains-insert_by cmp x (sort_by cmp xs) j
    ∙ ap (λ (b : Bool). x == j || b) (contains-sort_by cmp xs j)

sent-with_value : (v : KeyValue) (ks : List Key) → sent (with_value v ks) ≡ each_key v ks
sent-with_value v [] = refl
sent-with_value v (k ∷ ks) = ap (λ (xs : List Action). key_action k v ∷ xs) (sent-with_value v ks)

sent-append : (xs ys : KeyValues) → sent (xs ++ ys) ≡ sent xs ++ sent ys
sent-append [] ys = refl
sent-append (x ∷ xs) ys = ap (λ (zs : List Action). key_action x.0 x.1 ∷ zs) (sent-append xs ys)

pub replay_keys-append :
    (xs ys : KeyValues) (held : Held)
    → replay_keys (xs ++ ys) held ≡ replay_keys ys (replay_keys xs held)
replay_keys-append xs ys held = rw (sent-append, replay-append)

replay_keys-press :
    (ks : List Key) (held : Held) (j : Key)
    → replay_keys (with_value press (sort_by modifiers_first ks)) held j ≡ (contains ks j || held j)
replay_keys-press ks held j = rw (sent-with_value, replay-press, contains-sort_by)

replay_keys-release :
    (ks : List Key) (held : Held) (j : Key)
    → replay_keys (with_value release (sort_by modifiers_last ks)) held j
      ≡ (not (contains ks j) && held j)
replay_keys-release ks held j = rw (sent-with_value, replay-release, contains-sort_by)

replay_keys-repeat :
    (ks : List Key) (held : Held) (j : Key) → replay_keys (with_value repeat ks) held j ≡ held j
unfolding replay
replay_keys-repeat [] held j = refl
replay_keys-repeat (k ∷ ks) held j = replay_keys-repeat ks held j

replay_keys-tap :
    (ks : Keys) (held : Held) (j : Key)
    → replay_keys (press_and_release ks) held j ≡ (not (contains (into_vec ks) j) && held j)
replay_keys-tap ks held j =
    rw (replay_keys-append, replay_keys-release, replay_keys-press) (ground arith)

-- Down is at most what was down before the key, and the held keys where these have been pressed.
abbrev pub Bounds : MultiPurposeKeyState → Held → Held → Type 0
Bounds m before held =
    (j : Key) → held j ≡ true → ((m.held_down && contains (into_vec m.held) j) || before j) ≡ true

-- The held keys have been pressed only if the timeout is over.
abbrev pub IsSettled : MultiPurposeKeyState → Type 0
IsSettled m = m.held_down ≡ true → m.alone_timeout_at ≡ none

pub record Keeps (before held : Held) (r : KeyValues × MultiPurposeKeyState) : Type 0 where
  pub settled : IsSettled r.1
  pub bounds : Bounds r.1 before (replay_keys r.0 held)

-- Pressing the held keys keeps the bounds.
press-Keeps :
    (m m' : MultiPurposeKeyState) (before held : Held)
    → m'.held ≡ m.held
    → m'.held_down ≡ true
    → m'.alone_timeout_at ≡ none
    → Bounds m before held
    → Keeps before held (held_first press m, m')
press-Keeps m m' before held same down over b = record {
  settled = λ _. over;
  bounds = λ j h. rw (same, down) (pressed j (rw replay_keys-press at h));
}
  where
    pressed :
        (j : Key)
        → (contains (into_vec m.held) j || held j) ≡ true
        → (contains (into_vec m.held) j || before j) ≡ true
    pressed j h = ground (arith, b j)

pub nothing-Keeps :
    (m : MultiPurposeKeyState) (before held : Held)
    → IsSettled m
    → Bounds m before held
    → Keeps before held ([], m)
unfolding replay
nothing-Keeps m before held s b = record { settled = s; bounds = b }

pub repeat_at-Keeps :
    (now : ℕ) (o : Option ℕ) (m : MultiPurposeKeyState) (before held : Held)
    → m.alone_timeout_at ≡ o
    → IsSettled m
    → Bounds m before held
    → Keeps before held (repeat_at now o m)
repeat_at-Keeps now none m before held e s b = record {
  settled = s;
  bounds = λ j h. b j (rw replay_keys-repeat at h);
}
repeat_at-Keeps now (some at) m before held e s b = elim (Bool-cases (is_before now at)) [
  | inl early ↦ rw early (nothing-Keeps m before held s b)
  | inr late ↦ rw late (press-Keeps m _ before held refl refl refl b)
]

pub force_at-Keeps :
    (o : Option ℕ) (m : MultiPurposeKeyState) (before held : Held)
    → m.alone_timeout_at ≡ o
    → IsSettled m
    → Bounds m before held
    → Keeps before held (force_at o m)
force_at-Keeps (some at) m before held e s b = press-Keeps m _ before held refl refl refl b
force_at-Keeps none m before held e s b = elim (Bool-cases (not m.held_down)) [
  | inl up ↦ rw up (press-Keeps m _ before held refl refl e b)
  | inr down ↦ rw down (nothing-Keeps m before held s b)
]

tap-leaves :
    (ks : Keys) (m : MultiPurposeKeyState) (before held : Held)
    → m.held_down ≡ false
    → Bounds m before held
    → (j : Key) → replay_keys (press_and_release ks) held j ≡ true
    → before j ≡ true
tap-leaves ks m before held up b j h = bounded (rw replay_keys-tap at h) (rw up at (b j))
  where
    bounded :
        (not (contains (into_vec ks) j) && held j) ≡ true
        → (held j ≡ true → (false && contains (into_vec m.held) j || before j) ≡ true)
        → before j ≡ true
    bounded p q = ground (arith, q)

up_before_timeout :
    (m : MultiPurposeKeyState) (at : ℕ)
    → m.alone_timeout_at ≡ some at
    → IsSettled m
    → m.held_down ≡ false
up_before_timeout m at e s = elim (Bool-cases m.held_down) [
  | inl down ↦ absurd (no_timeout (s down))
  | inr up ↦ up
]
  where
    no_timeout : m.alone_timeout_at ≡ none → ⊥
    no_timeout n = cc

release_held-leaves :
    (m : MultiPurposeKeyState) (before held : Held)
    → Bounds m before held
    → (j : Key)
    → replay_keys (with_value release (sort_by modifiers_last (into_vec m.held))) held j ≡ true
    → before j ≡ true
release_held-leaves m before held b j h = bounded (rw replay_keys-release at h)
  where
    bounded : (not (contains (into_vec m.held) j) && held j) ≡ true → before j ≡ true
    bounded p = ground (arith, b j)

pub release_at-leaves :
    (now : ℕ) (o : Option ℕ) (m : MultiPurposeKeyState) (before held : Held)
    → m.alone_timeout_at ≡ o
    → IsSettled m
    → Bounds m before held
    → (j : Key) → replay_keys (release_at now o m) held j ≡ true
    → before j ≡ true
release_at-leaves now (some at) m before held e s b j h = elim (Bool-cases (is_before now at)) [
  | inl early ↦ tap-leaves m.alone m before held (up_before_timeout m at e s) b j (rw early at h)
  | inr late ↦ tap-leaves m.held m before held (up_before_timeout m at e s) b j (rw late at h)
]
release_at-leaves now none m before held e s b j h = elim (Bool-cases m.held_down) [
  | inl down ↦ release_held-leaves m before held b j (rw down at h)
  | inr up ↦ tap-leaves m.alone m before held up b j (rw up at h)
]
