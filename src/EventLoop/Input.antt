-- ===== src/EventLoop/Input.antt =====
-- event.rs, Event::new, and main.rs, handle_input_events: from what the kernel reports of a device to
-- the handler.
use ahk_wayland.Prelude.{ℕ, Bool, true, false, Option, none, some, List, [], ◌∷◌}
use ahk_wayland.Event.{KeyEvent, KeyValue, key_value, ℤ, pos, negsuc}
use ahk_wayland.InputDevice.{InputDeviceInfo}
use ahk_wayland.Config.Types.{Config}
use ahk_wayland.Handler.State.{EventHandler, Env, Outcome, ok, err, panic, ◌>>=◌}
use ahk_wayland.Handler.OnEvent.{Event, key_event, relative_event, other_events}
use ahk_wayland.Dispatcher.{ActionDispatcher, Ran}
use ahk_wayland.EventLoop.{handle_events}

pub data EventType : Type 0 where
  key relative other : EventType

-- An `evdev::InputEvent`: its type, code and value, and the event itself.
pub record InputEvent : Type 0 where
  pub event_type : EventType
  pub code : ℕ
  pub value : ℤ
  pub itself : ℕ

-- `KeyValue::new` of an i32.
abbrev pub key_value_of : ℤ → Option KeyValue
key_value_of (pos n) = key_value n
key_value_of (negsuc n) = none

-- `KeyEvent::new_with`, whose `unwrap` panics at a value that is none of a key.
unfoldable pub new_key_event : ℕ → ℤ → Outcome KeyEvent
unfolding key_value
new_key_event code value = elim (key_value_of value) [
  | none ↦ panic
  | some v ↦ ok (record { key = code; value = v })
]

unfoldable pub new_event : InputDeviceInfo → InputEvent → Outcome Event
unfolding new_key_event
new_event device e = elim e.event_type [
  | key ↦ do event ← new_key_event e.code e.value; ok (key_event device event)
  | relative ↦ ok (relative_event device (record { code = e.code; value = e.value }))
  | other ↦ ok (other_events e.itself)
]

-- The events of one device, with the surroundings of each.
unfoldable pub new_events : InputDeviceInfo → List (Env × InputEvent) → Outcome (List (Env × Event))
unfolding new_event
new_events device [] = ok []
new_events device ((env, e) ∷ es) = do
  event ← new_event device e
  events ← new_events device es
  ok ((env, event) ∷ events)

-- What `fetch_events` comes to: ENODEV, another error, or events.
pub data Fetched : Type 0 where
  no_device failed : Fetched
  fetched : List (Env × InputEvent) → Fetched

-- The events, and whether the device exists.
abbrev pub read_events : InputDeviceInfo → Fetched → Outcome (List (Env × Event) × Bool)
read_events device no_device = ok ([], false)
read_events device failed = err
read_events device (fetched es) = do events ← new_events device es; ok (events, true)

-- The device exists, the handler, and how the actions were carried out. An error of theirs ends the
-- program: it is kept in what they came to.
unfoldable pub handle_input_events :
    (ℕ → Bool)
    → Config
    → InputDeviceInfo
    → Fetched
    → EventHandler
    → ActionDispatcher
    → Outcome (Bool × EventHandler × Ran)
unfolding new_events handle_events
handle_input_events succeeds config device input handler dispatcher = do
  (events, device_exists) ← read_events device input
  (handler', ran) ← handle_events succeeds config events handler dispatcher
  ok (device_exists, handler', ran)
