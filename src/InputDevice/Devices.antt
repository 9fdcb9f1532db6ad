-- ===== src/InputDevice/Devices.antt =====
-- device.rs: the devices under /dev/input, which of them are keyboards and mice, and their grab.
use ahk_wayland.Prelude.{
  ℕ, zero, suc, ◌+◌, Bool, true, false, not, ◌&&◌, ◌||◌, Option, none, some, List, [], ◌∷◌, ◌++◌,
  Text, text, text_eq, starts_with, has_substring, is_empty, any, contains, retain, ◌==◌,
  if◌then◌else◌,
}
use ahk_wayland.Key.{Key, key_space, key_a, key_z}
use ahk_wayland.InputDevice.{InputDeviceInfo, matches, file_name, or_default}

-- An open device of the `evdev` crate: what its methods answer. The keys that are down are asked for
-- several times, and an error is none.
pub record OpenDevice : Type 0 where
  pub name : Option Text
  pub bus_type : ℕ
  pub product : ℕ
  pub vendor : ℕ
  pub supported_keys : Option (List Key)
  pub has_absolute_axes : Bool
  pub key_states : ℕ → Option (List Key)
  pub can_grab : Bool

pub record InputDevice : Type 0 where
  pub path : Text
  pub device : OpenDevice

-- The directory /dev/input, with each entry's path, and what opens. An error is none.
pub record DeviceFiles : Type 0 where
  pub entries : Option (List (Option Text))
  pub opens : Text → Option OpenDevice

abbrev from_open : Text → Option OpenDevice → Option InputDevice
from_open path none = none
from_open path (some d) = some (record { path = path; device = d })

unfoldable pub try_from : (Text → Option OpenDevice) → Text → Option InputDevice
try_from opens path =
    if starts_with (text "event") (file_name path) then from_open path (opens path) else none

abbrev entry_device : (Text → Option OpenDevice) → Option Text → Option InputDevice
entry_device opens none = none
entry_device opens (some path) = try_from opens path

unfoldable pub some_devices : (Text → Option OpenDevice) → List (Option Text) → List InputDevice
unfolding try_from
some_devices opens [] = []
some_devices opens (e ∷ es) =
    let rest = some_devices opens es in
    elim (entry_device opens e) [ none ↦ rest | some d ↦ d ∷ rest ]

unfoldable pub devices : DeviceFiles → Option (List InputDevice)
unfolding some_devices
devices files = elim files.entries [ none ↦ none | some es ↦ some (some_devices files.opens es) ]

abbrev pub device_name : InputDevice → Text
device_name d = or_default (text "<Unnamed device>") d.device.name

abbrev pub to_info : InputDevice → InputDeviceInfo
to_info d = record {
  name = device_name d;
  path = d.path;
  product = d.device.product;
  vendor = d.device.vendor;
}

abbrev pub key_unknown : Key
key_unknown = 240

abbrev pub all_up : List Key → Bool
all_up keys = is_empty (retain (λ k. not (k == key_unknown)) keys)

pub data Waited : Type 0 where
  released failed timed_out : Waited

-- What a poll of the keys says: an error, that a key is down, or that none is.
abbrev pub says : Option (List Key) → Waited
says none = failed
says (some keys) = if all_up keys then released else timed_out

abbrev pub or_later : Waited → Waited → Waited
or_later timed_out later = later
or_later failed later = failed
or_later released later = released

-- The polls from the n-th on, of which some are left.
unfoldable pub poll : (ℕ → Option (List Key)) → ℕ → ℕ → Waited
poll key_states n zero = timed_out
poll key_states n (suc left) = or_later (says (key_states n)) (poll key_states (n + 1) left)

unfoldable pub wait_for_all_keys_up : InputDevice → Waited
unfolding poll
wait_for_all_keys_up d = poll d.device.key_states 0 50

-- The device is asked to be grabbed just if the wait succeeds.
abbrev pub grab_after : Bool → Waited → Bool
grab_after can_grab released = can_grab
grab_after can_grab _ = false

unfoldable pub grab : InputDevice → Bool
unfolding wait_for_all_keys_up
grab d = grab_after d.device.can_grab (wait_for_all_keys_up d)

abbrev pub has_keys : List Key → Option (List Key) → Bool
has_keys keys none = false
has_keys [] (some supported) = true
has_keys (k ∷ keys) (some supported) = contains supported k && has_keys keys (some supported)

unfoldable pub is_keyboard : InputDevice → Bool
is_keyboard d = has_keys (key_space ∷ key_a ∷ key_z ∷ []) d.device.supported_keys

abbrev pub btn_left : Key
btn_left = 0x110

unfoldable pub is_mouse : InputDevice → Bool
is_mouse d = not d.device.has_absolute_axes && has_keys (btn_left ∷ []) d.device.supported_keys

-- The process that picks its name: its number, and the devices that it then sees.
pub record Process : Type 0 where
  pub pid : Text
  pub files : DeviceFiles

unfoldable pub has_device_name : DeviceFiles → Text → Bool
unfolding devices
has_device_name files name = elim (devices files) [
  | none ↦ true
  | some ds ↦ any (λ d. has_substring name (device_name d)) ds
]

abbrev chosen_name : Process → Text
chosen_name process =
    if has_device_name process.files (text "xremap")
    then text "xremap pid=" ++ process.pid
    else text "xremap"

-- The name, which is picked at the first call, and the static DEVICE_NAME from then on.
unfoldable pub current_name : Process → Option Text → Text × Option Text
unfolding has_device_name
current_name process kept = let name = or_default (chosen_name process) kept in (name, some name)

-- The command line's filters.
pub record Filters : Type 0 where
  pub device : List Text
  pub ignore : List Text
  pub mouse : Bool

-- The name is the one that `current_name` gives.
unfoldable pub matches_any : Text → List Text → InputDevice → Bool
unfolding matches
matches_any name filter d =
    if text_eq (device_name d) name then false else any (λ f. matches (to_info d) f) filter

abbrev pub is_selected : Text → Filters → InputDevice → Bool
is_selected name f d =
    if is_empty f.device
    then is_keyboard d || (f.mouse && is_mouse d)
    else matches_any name f.device d

unfoldable pub wants : Text → Filters → InputDevice → Bool
unfolding is_keyboard is_mouse matches_any
wants name f d =
    if text_eq (device_name d) name
    then false
    else is_selected name f d && (is_empty f.ignore || not (matches_any name f.ignore d))

-- `matches_any` asks for the name again, which is then the same.
unfoldable pub is_input_device : Process → Filters → InputDevice → Option Text → Bool × Option Text
unfolding current_name wants
is_input_device process f d kept =
    let (name, kept') = current_name process kept in (wants name f d, kept')
