-- ===== src/InputDevice.antt =====
-- device.rs: which devices a filter of the configuration means. Modelled is the build without the
-- feature `udev`. A device's path does not end in a slash.
pub mod Devices
pub mod Grab
pub mod Output
pub mod Selection
pub mod Selected
pub mod Changes
use ahk_wayland.Prelude.{
  ℕ, ◌+◌, ◌-◌, ◌*◌, Bool, false, not, ◌&&◌, ◌||◌, Option, none, some, List, [], ◌∷◌, Text, text,
  text_eq, starts_with, has_substring, split, after_last, ◌==◌, leb, any, all, if◌then◌else◌,
}
use ahk_wayland.Config.Types.{Device}

pub record InputDeviceInfo : Type 0 where
  pub name : Text
  pub path : Text
  pub product : ℕ
  pub vendor : ℕ

abbrev pub or_default {ℓ} : {A : Type ℓ} → A → Option A → A
or_default d none = d
or_default d (some a) = a

-- `Path::file_name`
abbrev pub file_name : Text → Text
file_name path = or_default path (after_last b'/' path)

-- `u16::from_str_radix` at 16, with its optional sign; an error is none.
unfoldable pub hex_digit : ℕ → Option ℕ
hex_digit c =
    if leb b'0' c && leb c b'9'
    then some (c - b'0')
    else if leb b'a' c && leb c b'f'
    then some (c - 87)
    else if leb b'A' c && leb c b'F'
    then some (c - 55)
    else none

unfoldable pub hex_digits : ℕ → Text → Option ℕ
unfolding hex_digit
hex_digits acc [] = if leb acc 65535 then some acc else none
hex_digits acc (c ∷ s) = elim (hex_digit c) [ none ↦ none | some d ↦ hex_digits (acc * 16 + d) s ]

abbrev pub unsigned_hex : Text → Option ℕ
unsigned_hex [] = none
unsigned_hex (c ∷ s) = hex_digits 0 (c ∷ s)

unfoldable pub from_hex : Text → Option ℕ
unfolding hex_digits
from_hex [] = none
from_hex (c ∷ s) = if c == b'+' then unsigned_hex s else hex_digits 0 (c ∷ s)

-- `trim_start_matches("0x")`
unfoldable pub trim_0x : Text → Text
trim_0x [] = []
trim_0x (a ∷ []) = a ∷ []
trim_0x (a ∷ b ∷ s) = let rest = trim_0x s in if a == b'0' && b == b'x' then rest else a ∷ b ∷ s

unfoldable pub id_of : Text → ℕ
unfolding from_hex trim_0x
id_of s = or_default 0 (from_hex (trim_0x s))

-- The `match (vid, pid)`; 0 stands for any.
abbrev pub ids_match : ℕ → ℕ → InputDeviceInfo → Bool
ids_match v p d =
    not (v == 0 && p == 0) && ((v == 0 || v == d.vendor) && (p == 0 || p == d.product))

abbrev pub ids_args : List Text → InputDeviceInfo → Bool
ids_args (a ∷ v ∷ p ∷ []) d = ids_match (id_of v) (id_of p) d
ids_args _ d = false

unfoldable pub matches : InputDeviceInfo → Text → Bool
unfolding id_of
matches d filter =
    text_eq d.path filter
    || text_eq d.name filter
    || (starts_with (text "event") filter && text_eq (file_name d.path) filter)
    || (starts_with (text "ids:") filter && ids_args (split b':' filter) d)
    || has_substring filter d.name

-- `EventHandler::match_device`
abbrev pub device_not : InputDeviceInfo → Option (List Text) → Bool
device_not d none = false
device_not d (some fs) = all (λ f. not (matches d f)) fs

abbrev pub device_only : InputDeviceInfo → Option (List Text) → Option (List Text) → Bool
device_only d (some fs) nots = any (λ f. matches d f) fs
device_only d none nots = device_not d nots

unfoldable pub match_device : Device → InputDeviceInfo → Bool
unfolding matches
match_device m d = device_only d m.only m.not
