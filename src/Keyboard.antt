-- ===== src/Keyboard.antt =====
-- What the output device shows: the keys that are down after a list of actions. This is the
-- specification side; no line of the program keeps this state.
use ahk_wayland.Prelude.{
  ◌≡◌, refl, Bool, true, false, ◌&&◌, ◌||◌, not, List, [], ◌∷◌, ◌++◌, map, ◌==◌, contains, arith,
  if◌then◌else◌,
}
use ahk_wayland.Key.{Key}
use ahk_wayland.Event.{KeyValue, press, release, repeat, Action, key_event, key_action}

abbrev pub Held : Type 0
Held = Key → Bool

abbrev pub set_held : KeyValue → Key → Held → Held
set_held press k held j = if k == j then true else held j
set_held release k held j = if k == j then false else held j
set_held repeat k held j = held j

abbrev pub apply : Action → Held → Held
apply (key_event e) held = set_held e.value e.key held
apply _ held = held

unfoldable pub replay : List Action → Held → Held
replay [] held = held
replay (a ∷ xs) held = replay xs (apply a held)

pub replay-append :
    (xs ys : List Action) (held : Held) → replay (xs ++ ys) held ≡ replay ys (replay xs held)
unfolding replay
replay-append [] ys held = refl
replay-append (a ∷ xs) ys held = replay-append xs ys (apply a held)

-- One event for each key of a list.
abbrev pub each_key : KeyValue → List Key → List Action
each_key v ks = map (λ k. key_action k v) ks

pub replay-press :
    (ks : List Key) (held : Held) (j : Key)
    → replay (each_key press ks) held j ≡ (contains ks j || held j)
unfolding replay
replay-press [] held j = refl
replay-press (k ∷ ks) held j = ground (arith, replay-press ks (set_held press k held) j)

pub replay-release :
    (ks : List Key) (held : Held) (j : Key)
    → replay (each_key release ks) held j ≡ (not (contains ks j) && held j)
unfolding replay
replay-release [] held j = refl
replay-release (k ∷ ks) held j = ground (arith, replay-release ks (set_held release k held) j)

pub replay-tap :
    (k : Key) (held : Held) (j : Key)
    → replay (key_action k press ∷ key_action k release ∷ []) held j ≡ (not (k == j) && held j)
unfolding replay
replay-tap k held j = ground arith
