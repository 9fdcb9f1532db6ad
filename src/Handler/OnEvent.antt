-- ===== src/Handler/OnEvent.antt =====
-- event_handler.rs: the events, from their arrival to the actions that go out.
use ahk_wayland.Prelude.{
  ℕ, ◌+◌, ◌*◌, ◌%◌, ◌^◌, Bool, true, false, ◌&&◌, ◌||◌, Option, none, some, List, [], ◌∷◌, ◌++◌,
  ◌==◌, leb, contains, is_empty, if◌then◌else◌,
}
use ahk_wayland.Key.{Key, disguised_event_offsetter, key_match_any, is_modifier_key}
use ahk_wayland.Event.{
  KeyValue, press, release, repeat, value_eq, KeyEvent, pos, negsuc, RelativeEvent, Action,
  mouse_movement_event_collection, input_event,
}
use ahk_wayland.Config.Types.{Config, ModmapAction}
use ahk_wayland.InputDevice.{InputDeviceInfo}
use ahk_wayland.Handler.State.{EventHandler, Env, Outcome, ok, ◌>>=◌, send_action, send_key}
use ahk_wayland.Handler.Modifiers.{TaggedAction, update_modifier}
use ahk_wayland.Handler.MultiPurpose.{KeyValues, maintain_pressed_keys, flush_timeout_keys}
use ahk_wayland.Handler.Matching.{find_modmap}
use ahk_wayland.Handler.Lookup.{Found, find_keymap, timeout_override}
use ahk_wayland.Handler.Dispatch.{Mapped, dispatch_actions, dispatch_keys}
use ahk_wayland.Handler.Typing.{type_key}

pub data Event : Type 0 where
  key_event : InputDeviceInfo → KeyEvent → Event
  relative_event : InputDeviceInfo → RelativeEvent → Event
  other_events : ℕ → Event
  override_timeout : Event

-- `is_pressed`
abbrev pub is_pressed : KeyValue → Bool
is_pressed press = true
is_pressed repeat = true
is_pressed release = false

-- What becomes of a key, and whether the round of the loop goes on to its last test.
abbrev pub Handled : Type 0
Handled = Outcome (EventHandler × Bool)

abbrev pub dispatch_found : Env → Key → List TaggedAction → EventHandler → Handled
dispatch_found env k xs s = do s' ← dispatch_actions env xs k s; ok (s', false)

-- The second lookup, for `KEY_MATCH_ANY`; with no actions the key itself is sent.
abbrev pub after_any : Env → Key → KeyValue → Found → Handled
after_any env k v (some xs, s) = dispatch_found env key_match_any xs s
after_any env k v (none, s) = ok (send_key k v s, true)

abbrev pub after_lookup : Env → Config → InputDeviceInfo → Key → KeyValue → Found → Handled
after_lookup env config d k v (some xs, s) = dispatch_found env k xs s
after_lookup env config d k v (none, s) = do
  found ← find_keymap env config d key_match_any s
  after_any env k v found

-- The hotkeys, unless a hotstring took the key.
abbrev pub after_typing :
    Env → Config → InputDeviceInfo → Key → KeyValue → EventHandler × Bool → Handled
after_typing env config d k v (s, taken) =
    if taken
    then ok (s, false)
    else (do found ← find_keymap env config d k s; after_lookup env config d k v found)

-- A key that is pressed or repeated. `escape_next_key` is cleared, and nothing else is made of it.
unfoldable pub key_down : Env → Config → InputDeviceInfo → Key → KeyValue → EventHandler → Handled
key_down env config d k v s = do
  typed ← type_key config.hotstring_matcher k (record s { escape_next_key = false })
  after_typing env config d k v typed

-- One round of the loop over the keys and values.
unfoldable pub handle_key : Env → Config → InputDeviceInfo → Key → KeyValue → EventHandler → Handled
handle_key env config d k v s =
    if contains config.virtual_modifiers k
    then ok (update_modifier k v s, false)
    else if is_modifier_key k
    then ok (send_key k v (update_modifier k v s), false)
    else if is_pressed v
    then key_down env config d k v s
    else ok (send_key k v s, true)

-- The last test: whether the event that came in is itself among the keys, as a disguised one.
abbrev pub is_original : KeyEvent → Key → KeyValue → Bool
is_original e k v = leb disguised_event_offsetter k && (k == e.key && value_eq v e.value)

unfoldable pub handle_keys :
    Env
    → Config
    → InputDeviceInfo
    → KeyEvent
    → KeyValues
    → EventHandler
    → Bool
    → Outcome (EventHandler × Bool)
handle_keys env config d e [] s original = ok (s, original)
handle_keys env config d e ((k, v) ∷ kvs) s original = do
  (s', goes_on) ← handle_key env config d k v s
  handle_keys env config d e kvs s' (original || (goes_on && is_original e k v))

-- The keys that a modmap makes of the event, or the event itself.
abbrev pub mapped : Env → KeyEvent → Option ModmapAction × EventHandler → Outcome Mapped
mapped env e (some action, s) = dispatch_keys env action e.key e.value s
mapped env e (none, s) = ok ((e.key, e.value) ∷ [], s)

abbrev pub maintain_and_flush : KeyEvent → Mapped → Mapped
maintain_and_flush e (kvs, s) =
    let (kvs', s') = maintain_pressed_keys e.key e.value kvs s in
    if is_empty s'.multi_purpose_keys then (kvs', s') else flush_timeout_keys kvs' s'

unfoldable pub on_key_event : Env → Config → InputDeviceInfo → KeyEvent → EventHandler → Handled
on_key_event env config d e s = do
  let s0 = record s { application_cache = none; title_cache = none }
  first ← mapped env e (find_modmap env d e.key config.modmap s0)
  let kept = maintain_and_flush e first
  handle_keys env config d e kept.0 kept.1 false

-- The code of the key that a relative event is disguised as: a u16.
unfoldable pub disguised_key : RelativeEvent → Key
disguised_key r = elim r.value [
  | pos n ↦ (r.code * 2 + disguised_event_offsetter) % 2 ^ 16
  | negsuc n ↦ (r.code * 2 + 1 + disguised_event_offsetter) % 2 ^ 16
]

abbrev pub Collected : Type 0
Collected = EventHandler × List RelativeEvent

abbrev pub send_relative : RelativeEvent → List RelativeEvent → EventHandler → Bool → Collected
send_relative r mouse s original =
    if original
    then (if leb r.code 2
        then (s, mouse ++ r ∷ [])
        else (send_action (Action.relative_event r) s, mouse))
    else (s, mouse)

unfoldable pub on_relative_event :
    Env
    → Config
    → InputDeviceInfo
    → RelativeEvent
    → List RelativeEvent
    → EventHandler
    → Outcome Collected
unfolding on_key_event disguised_key
on_relative_event env config d r mouse s = do
  (s1, original) ← on_key_event env config d (record { key = disguised_key r; value = press }) s
  let sent = send_relative r mouse s1 original
  (s2, _) ← on_key_event env config d (record { key = disguised_key r; value = release }) sent.0
  ok (s2, sent.1)

unfoldable pub on_event :
    Env → Config → Event → List RelativeEvent → EventHandler → Outcome Collected
unfolding on_key_event on_relative_event timeout_override
on_event env config (key_event d e) mouse s = do
  (s', _) ← on_key_event env config d e s
  ok (s', mouse)
on_event env config (relative_event d r) mouse s = on_relative_event env config d r mouse s
on_event env config (other_events e) mouse s = ok (send_action (input_event e) s, mouse)
on_event env config override_timeout mouse s = do s' ← timeout_override env s; ok (s', mouse)

-- The loop of `on_events`. The surroundings may change from one event to the next.
unfoldable pub run_events :
    Config → List (Env × Event) → List RelativeEvent → EventHandler → Outcome Collected
unfolding on_event
run_events config [] mouse s = ok (s, mouse)
run_events config ((env, e) ∷ es) mouse s = do
  (s', mouse') ← on_event env config e mouse s
  run_events config es mouse' s'

abbrev pub collect : Collected → EventHandler
collect (s, []) = s
collect (s, r ∷ rs) = send_action (mouse_movement_event_collection (r ∷ rs)) s

-- The actions are drained: the handler keeps none.
unfoldable pub on_events :
    Config → List (Env × Event) → EventHandler → Outcome (List Action × EventHandler)
unfolding run_events
on_events config es s = do
  run ← run_events config es [] s
  ok ((collect run).actions, record (collect run) { actions = [] })
