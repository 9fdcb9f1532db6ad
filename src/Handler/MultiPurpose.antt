-- ===== src/Handler/MultiPurpose.antt =====
-- event_handler.rs: keys with one meaning when tapped and another when held, and the keys that are
-- remembered while they are down.
pub mod Lifecycle
pub mod Flush
use Prim.Native.Nat.{compare, Ordering}
use ahk_wayland.Prelude.{
  ℕ, Bool, true, false, not, ◌&&◌, Option, none, some, List, [], ◌∷◌, ◌++◌, map, is_empty, any, ltb,
  contains, retain, map_get, map_insert, map_remove, if◌then◌else◌,
}
use ahk_wayland.Key.{Key, is_modifier_key}
use ahk_wayland.Event.{KeyValue, press, release, repeat, value_eq}
use ahk_wayland.Config.Types.{Keys, into_vec}
use ahk_wayland.Handler.State.{MultiPurposeKeyState, EventHandler}

abbrev pub KeyValues : Type 0
KeyValues = List (Key × KeyValue)

-- `modifiers_first` and `modifiers_last`
unfoldable pub modifiers_first : Key → Key → Ordering
modifiers_first a b =
    if is_modifier_key a
    then (if is_modifier_key b then Ordering.eq else Ordering.lt)
    else (if is_modifier_key b then Ordering.gt else Ordering.eq)

abbrev pub reverse_order : Ordering → Ordering
reverse_order Ordering.lt = Ordering.gt
reverse_order Ordering.eq = Ordering.eq
reverse_order Ordering.gt = Ordering.lt

unfoldable pub modifiers_last : Key → Key → Ordering
unfolding modifiers_first
modifiers_last a b = reverse_order (modifiers_first a b)

-- `slice::sort_by`: a stable sort.
abbrev pub is_gt : Ordering → Bool
is_gt Ordering.gt = true
is_gt _ = false

unfoldable pub insert_by : (Key → Key → Ordering) → Key → List Key → List Key
insert_by cmp x [] = x ∷ []
insert_by cmp x (y ∷ ys) =
    let rest = insert_by cmp x ys in if is_gt (cmp x y) then y ∷ rest else x ∷ (y ∷ ys)

unfoldable pub sort_by : (Key → Key → Ordering) → List Key → List Key
unfolding insert_by
sort_by cmp [] = []
sort_by cmp (x ∷ xs) = insert_by cmp x (sort_by cmp xs)

abbrev pub with_value : KeyValue → List Key → KeyValues
with_value v ks = map (λ k. (k, v)) ks

abbrev pub held_first : KeyValue → MultiPurposeKeyState → KeyValues
held_first v m = with_value v (sort_by modifiers_first (into_vec m.held))

-- `Instant::now() < alone_timeout_at`
abbrev pub is_before : ℕ → ℕ → Bool
is_before now at = ltb now at

abbrev pub press_and_release : Keys → KeyValues
press_and_release ks =
    with_value press (sort_by modifiers_first (into_vec ks))
    ++ with_value release (sort_by modifiers_last (into_vec ks))

abbrev pub repeat_at : ℕ → Option ℕ → MultiPurposeKeyState → KeyValues × MultiPurposeKeyState
repeat_at now (some at) m =
    if is_before now at
    then ([], m)
    else (held_first press m, record m { alone_timeout_at = none; held_down = true })
repeat_at now none m = (held_first repeat m, m)

-- `MultiPurposeKeyState::repeat`, `release` and `force_held`.
unfoldable pub repeat_state : ℕ → MultiPurposeKeyState → KeyValues × MultiPurposeKeyState
repeat_state now m = repeat_at now m.alone_timeout_at m

abbrev pub release_at : ℕ → Option ℕ → MultiPurposeKeyState → KeyValues
release_at now (some at) m =
    if is_before now at then press_and_release m.alone else press_and_release m.held
release_at now none m =
    if m.held_down
    then with_value release (sort_by modifiers_last (into_vec m.held))
    else press_and_release m.alone

unfoldable pub release_state : ℕ → MultiPurposeKeyState → KeyValues
release_state now m = release_at now m.alone_timeout_at m

abbrev pub force_at : Option ℕ → MultiPurposeKeyState → KeyValues × MultiPurposeKeyState
force_at (some at) m = (held_first press m, record m { alone_timeout_at = none; held_down = true })
force_at none m =
    if not m.held_down then (held_first press m, record m { held_down = true }) else ([], m)

unfoldable pub force_held : MultiPurposeKeyState → KeyValues × MultiPurposeKeyState
force_held m = force_at m.alone_timeout_at m

-- The loop of `flush_timeout_keys` over the states.
unfoldable pub force_all :
    List (Key × MultiPurposeKeyState) → KeyValues × List (Key × MultiPurposeKeyState)
force_all [] = ([], [])
force_all ((k, m) ∷ rest) =
    let (xs, m') = force_held m in let (ys, rest') = force_all rest in (xs ++ ys, (k, m') ∷ rest')

abbrev pub has_press : KeyValues → Bool
has_press kvs = any (λ kv. value_eq kv.1 press) kvs

unfoldable pub presses : KeyValues → List Key
presses [] = []
presses ((k, v) ∷ rest) = let more = presses rest in if value_eq v press then k ∷ more else more

unfoldable pub flush_timeout_keys : KeyValues → EventHandler → KeyValues × EventHandler
flush_timeout_keys kvs s =
    if has_press kvs
    then (let (flushed, states) = force_all s.multi_purpose_keys in
        (
          flushed
              ++ retain (λ kv. not (value_eq kv.1 press && contains (presses flushed) kv.0)) kvs,
          record s { multi_purpose_keys = states },
        ))
    else (kvs, s)

-- `maintain_pressed_keys` once there is just one event, with the value of the key itself.
abbrev pub or_self : Key → Option Key → Key
or_self k none = k
or_self k (some j) = j

unfoldable pub maintain_one : Key → KeyValue → Key → EventHandler → KeyValues × EventHandler
maintain_one k press j s =
    ((j, press) ∷ [], record s { pressed_keys = map_insert k j s.pressed_keys })
maintain_one k release j s = (
  (or_self j (map_get k s.pressed_keys), release) ∷ [],
  record s { pressed_keys = map_remove k s.pressed_keys },
)
maintain_one k repeat j s = ((or_self j (map_get k s.pressed_keys), repeat) ∷ [], s)

unfoldable pub maintain_pressed_keys :
    Key → KeyValue → KeyValues → EventHandler → KeyValues × EventHandler
unfolding maintain_one
maintain_pressed_keys k v ((j, w) ∷ []) s =
    if value_eq v w then maintain_one k v j s else ((j, w) ∷ [], s)
maintain_pressed_keys k v kvs s = (kvs, s)
