-- ===== src/InputDevice/Output.antt =====
-- device.rs, output_device: the virtual device. Names of keys are those of `evdev`, and whether the
-- device can be built is a parameter.
use ahk_wayland.Prelude.{
  ℕ, zero, suc, ◌≤◌, ◌≡◌, ap, ◌∙◌, arith, Bool, false, ◌&&◌, ◌||◌, Option, none, some, List, [],
  ◌∷◌, Text, text, text_eq, starts_with, any, contains, ltb, if◌then◌else◌,
}
use ahk_wayland.Key.{Key, disguised_event_offsetter}
use ahk_wayland.InputDevice.{or_default}
use ahk_wayland.InputDevice.Devices.{Process, current_name}

abbrev pub mouse_btns : List Text
mouse_btns =
    text "BTN_MISC"
    ∷ text "BTN_0"
    ∷ text "BTN_1"
    ∷ text "BTN_2"
    ∷ text "BTN_3"
    ∷ text "BTN_4"
    ∷ text "BTN_5"
    ∷ text "BTN_6"
    ∷ text "BTN_7"
    ∷ text "BTN_8"
    ∷ text "BTN_9"
    ∷ text "BTN_MOUSE"
    ∷ text "BTN_LEFT"
    ∷ text "BTN_RIGHT"
    ∷ text "BTN_MIDDLE"
    ∷ text "BTN_SIDE"
    ∷ text "BTN_EXTRA"
    ∷ text "BTN_FORWARD"
    ∷ text "BTN_BACK"
    ∷ text "BTN_TASK"
    ∷ []

unfoldable pub is_output_name : Text → Bool
is_output_name name = starts_with (text "KEY_") name || any (λ b. text_eq b name) mouse_btns

abbrev pub btn_trigger_happy40 : Key
btn_trigger_happy40 = 0x2e7

-- The loop over the codes from KEY_RESERVED on, here from the last to the first.
unfoldable pub codes_below : (Key → Bool) → ℕ → List Key
codes_below wanted zero = []
codes_below wanted (suc n) = let rest = codes_below wanted n in if wanted n then n ∷ rest else rest

unfoldable pub output_keys : (Key → Text) → List Key
unfolding is_output_name codes_below
output_keys name_of_key = codes_below (λ k. is_output_name (name_of_key k)) btn_trigger_happy40

-- REL_X, REL_Y, REL_HWHEEL, REL_WHEEL and REL_MISC.
abbrev pub output_axes : Bool → List ℕ
output_axes enable_wheel = 0 ∷ 1 ∷ (if enable_wheel then 6 ∷ 8 ∷ 9 ∷ [] else 9 ∷ [])

pub record VirtualDevice : Type 0 where
  pub bus_type : ℕ
  pub vendor : ℕ
  pub product : ℕ
  pub version : ℕ
  pub name : Text
  pub keys : List Key
  pub relative_axes : List ℕ

-- BUS_USB is the bus where there is no device to take it from.
unfoldable pub output_device :
    Bool → (Key → Text) → Process → Option Text → Option ℕ → Bool → ℕ → ℕ → Option VirtualDevice
unfolding output_keys current_name
output_device builds name_of_key process kept bus_type enable_wheel vendor product =
    if builds
    then some (record {
      bus_type = or_default 3 bus_type;
      vendor = vendor;
      product = product;
      version = 0x111;
      name = (current_name process kept).0;
      keys = output_keys name_of_key;
      relative_axes = output_axes enable_wheel;
    })
    else none

contains-codes_below :
    (wanted : Key → Bool) (n k : ℕ) → contains (codes_below wanted n) k ≡ (ltb k n && wanted k)
unfolding codes_below
contains-codes_below wanted zero k = ground arith
contains-codes_below wanted (suc n) k = ground (arith, contains-codes_below wanted n k, same)
  where
    same : n ≡ k → wanted n ≡ wanted k
    same e = ap wanted e

-- A key of a disguised event is none of the device's, whatever the names of the keys.
output_keys-disguised :
    (name_of_key : Key → Text) (k : Key)
    → disguised_event_offsetter ≤ k
    → contains (output_keys name_of_key) k ≡ false
unfolding output_keys
output_keys-disguised name_of_key k h =
    contains-codes_below (λ i. is_output_name (name_of_key i)) btn_trigger_happy40 k
    ∙ out_of_range (is_output_name (name_of_key k))
  where
    out_of_range : (b : Bool) → (ltb k btn_trigger_happy40 && b) ≡ false
    out_of_range b = ground (arith, h)
