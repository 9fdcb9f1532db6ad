-- ===== src/Event.antt =====
-- event.rs and action.rs: what enters and what leaves the event handler.
-- `i32` event values are `KeyValue`s here: every value that the handler compares comes from
-- `KeyEvent::value`, and `KeyValue::new` is the only way in from a number.
use ahk_wayland.Prelude.{ℕ, ◌≡◌, Bool, Option, none, some, List, Text, ◌==◌, if◌then◌else◌, arith}
use ahk_wayland.Key.{Key}

pub data KeyValue : Type 0 where
  press release repeat : KeyValue

abbrev pub value_eq : KeyValue → KeyValue → Bool
value_eq press press = Bool.true
value_eq release release = Bool.true
value_eq repeat repeat = Bool.true
value_eq _ _ = Bool.false

-- `KeyValue::value` and `KeyValue::new`. A negative i32 is no key value either.
unfoldable pub value : KeyValue → ℕ
value release = 0
value press = 1
value repeat = 2

unfoldable pub key_value : ℕ → Option KeyValue
key_value n =
    if n == 0
    then some release
    else if n == 1
    then some press
    else if n == 2
    then some repeat
    else none

-- The number of a key value reads back as that value, and nothing else has that number.
pub key_value-value :
    (v : KeyValue) (n : ℕ)
    → (key_value n ≡ some v → n ≡ value v) × (n ≡ value v → key_value n ≡ some v)
unfolding key_value value
key_value-value press n = ground arith
key_value-value release n = ground arith
key_value-value repeat n = ground arith

pub record KeyEvent : Type 0 where
  pub key : Key
  pub value : KeyValue

-- An i32: `negsuc n` is -(n + 1).
pub data ℤ : Type 0 where
  pos : ℕ → ℤ
  negsuc : ℕ → ℤ

-- A relative axis event: the axis, and the signed movement.
pub record RelativeEvent : Type 0 where
  pub code : ℕ
  pub value : ℤ

-- An `evdev::InputEvent` of another type is passed on untouched, so it is opaque: a number.
pub data Action : Type 0 where
  key_event : KeyEvent → Action
  relative_event : RelativeEvent → Action
  mouse_movement_event_collection : List RelativeEvent → Action
  input_event : ℕ → Action
  command : List Text → Action
  delay : ℕ → Action
  text_expansion : ℕ → Text → Bool → Action

abbrev pub key_action : Key → KeyValue → Action
key_action k v = key_event (record { key = k; value = v })
