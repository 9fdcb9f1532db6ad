-- ===== src/Handler/MultiPurpose/Flush.antt =====
-- event_handler.rs, flush_timeout_keys: the press of another key settles the multi-purpose keys.
use ahk_wayland.Prelude.{
  ℕ, ◌≡◌, refl, ap, true, not, ◌&&◌, ◌||◌, Option, none, some, List, [], ◌∷◌, ◌++◌, map, retain,
  contains, contains-append, All, arith, Bool-cases, inl, inr,
}
use ahk_wayland.Key.{Key}
use ahk_wayland.Event.{press, release, repeat, value_eq}
use ahk_wayland.Handler.State.{EventHandler, MultiPurposeKeyState}
use ahk_wayland.Handler.MultiPurpose.{
  KeyValues, force_at, force_held, force_all, has_press, presses, flush_timeout_keys,
}

-- The held keys count as down, and no timeout is pending.
abbrev pub IsSettled : Key × MultiPurposeKeyState → Type 0
IsSettled km = (km.1.held_down ≡ true) × (km.1.alone_timeout_at ≡ none)

abbrev pub tracked_keys : List (Key × MultiPurposeKeyState) → List Key
tracked_keys states = map (λ km. km.0) states

force_at-IsSettled :
    (k : Key) (o : Option ℕ) (m : MultiPurposeKeyState)
    → m.alone_timeout_at ≡ o
    → IsSettled (k, (force_at o m).1)
force_at-IsSettled k (some at) m e = (refl, refl)
force_at-IsSettled k none m e = elim (Bool-cases m.held_down) [
  | inl down ↦ rw down (refl, e)
  | inr up ↦ rw up (refl, e)
]

force_all-IsSettled :
    (states : List (Key × MultiPurposeKeyState)) → All IsSettled (force_all states).1
unfolding force_all force_held
force_all-IsSettled [] = tt
force_all-IsSettled ((k, m) ∷ rest) =
    (force_at-IsSettled k m.alone_timeout_at m refl, force_all-IsSettled rest)

force_all-tracked_keys :
    (states : List (Key × MultiPurposeKeyState))
    → tracked_keys (force_all states).1 ≡ tracked_keys states
unfolding force_all
force_all-tracked_keys [] = refl
force_all-tracked_keys ((k, m) ∷ rest) =
    ap (λ (ks : List Key). k ∷ ks) (force_all-tracked_keys rest)

presses-append : (xs ys : KeyValues) → presses (xs ++ ys) ≡ presses xs ++ presses ys
unfolding presses
presses-append [] ys = refl
presses-append ((k, press) ∷ xs) ys = ap (λ (ks : List Key). k ∷ ks) (presses-append xs ys)
presses-append ((k, release) ∷ xs) ys = presses-append xs ys
presses-append ((k, repeat) ∷ xs) ys = presses-append xs ys

-- A press that is filtered out is one of `ks`.
presses-retain :
    (ks : List Key) (kvs : KeyValues) (j : Key)
    → contains (presses kvs) j ≡ true
    → (contains ks j
        || contains (presses (retain (λ kv. not (value_eq kv.1 press && contains ks kv.0)) kvs)) j)
      ≡ true
unfolding presses
presses-retain ks [] j h = ground arith
presses-retain ks ((k, press) ∷ kvs) j h = elim (Bool-cases (contains ks k)) [
  | inl there ↦ rw there (ground (arith, presses-retain ks kvs j))
  | inr new ↦ rw new (ground (arith, presses-retain ks kvs j))
]
presses-retain ks ((k, release) ∷ kvs) j h = presses-retain ks kvs j h
presses-retain ks ((k, repeat) ∷ kvs) j h = presses-retain ks kvs j h

-- If there is a press among the keys and values, the flush keeps track of the same multi-purpose
-- keys, and each of them is settled: its held keys count as down and no timeout is pending. No press
-- is lost by the flush: each key that was to be pressed is among the presses it returns.
pub flush_timeout_keys-settles :
    (kvs : KeyValues) (s : EventHandler)
    → has_press kvs ≡ true
    → All IsSettled (flush_timeout_keys kvs s).1.multi_purpose_keys
      × (tracked_keys (flush_timeout_keys kvs s).1.multi_purpose_keys
          ≡ tracked_keys s.multi_purpose_keys)
      × ((j : Key)
          → contains (presses kvs) j ≡ true
          → contains (presses (flush_timeout_keys kvs s).0) j ≡ true)
unfolding flush_timeout_keys
flush_timeout_keys-settles kvs s h = rw h (
  force_all-IsSettled s.multi_purpose_keys,
  force_all-tracked_keys s.multi_purpose_keys,
  λ j p.
      rw (presses-append, contains-append)
        (presses-retain (presses (force_all s.multi_purpose_keys).0) kvs j p),
)
