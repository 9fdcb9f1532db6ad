-- ===== src/InputDevice/Selection.antt =====
-- device.rs, get_input_devices, and main.rs, handle_device_changes: the devices that are read. The
-- output is left out.
use ahk_wayland.Prelude.{
  Bool, true, false, not, ◌&&◌, Option, none, some, List, [], ◌∷◌, ◌++◌, Text, text, text_eq,
  is_empty, ltb, ◌==◌, if◌then◌else◌,
}
use ahk_wayland.InputDevice.Devices.{
  InputDevice, OpenDevice, DeviceFiles, Process, Filters, try_from, devices, is_input_device, grab,
}

-- The order of paths in one directory.
unfoldable pub text_le : Text → Text → Bool
text_le [] t = true
text_le (a ∷ s) [] = false
text_le (a ∷ s) (b ∷ t) = let rest = text_le s t in if a == b then rest else ltb a b

unfoldable pub insert : InputDevice → List InputDevice → List InputDevice
unfolding text_le
insert d [] = d ∷ []
insert d (e ∷ es) = let rest = insert d es in if text_le d.path e.path then d ∷ e ∷ es else e ∷ rest

unfoldable pub sort : List InputDevice → List InputDevice
unfolding insert
sort [] = []
sort (d ∷ ds) = insert d (sort ds)

-- The `filter_map`, in which the static DEVICE_NAME may be set.
unfoldable pub select :
    Process → Filters → List InputDevice → Option Text → List InputDevice × Option Text
unfolding is_input_device grab
select process f [] kept = ([], kept)
select process f (d ∷ ds) kept =
    let (wanted, kept1) = is_input_device process f d kept in
    let (rest, kept2) = select process f ds kept1 in
    (if wanted && grab d then d ∷ rest else rest, kept2)

-- A `HashMap<PathBuf, InputDevice>`.
abbrev pub DeviceMap : Type 0
DeviceMap = List (Text × InputDevice)

unfoldable pub insert_device : InputDevice → DeviceMap → DeviceMap
insert_device d [] = (d.path, d) ∷ []
insert_device d ((p, e) ∷ m) =
    let rest = insert_device d m in if text_eq d.path p then (p, d) ∷ m else (p, e) ∷ rest

-- `collect` and `extend`
unfoldable pub extend_devices : List InputDevice → DeviceMap → DeviceMap
unfolding insert_device
extend_devices [] m = m
extend_devices (d ∷ ds) m = extend_devices ds (insert_device d m)

-- An error, of the listing or as nothing was selected, is none.
abbrev pub selected : Bool → List InputDevice × Option Text → Option DeviceMap × Option Text
selected watch (ds, kept) =
    (if is_empty ds && not watch then none else some (extend_devices ds []), kept)

unfoldable pub listed :
    Process
    → Filters
    → Bool
    → Option Text
    → Option (List InputDevice)
    → Option DeviceMap × Option Text
unfolding sort select extend_devices
listed process f watch kept none = (none, kept)
listed process f watch kept (some ds) = selected watch (select process f (sort ds) kept)

unfoldable pub get_input_devices :
    DeviceFiles → Process → Filters → Bool → Option Text → Option DeviceMap × Option Text
unfolding devices listed
get_input_devices files process f watch kept = listed process f watch kept (devices files)

abbrev named_device : (Text → Option OpenDevice) → Option Text → Option InputDevice
named_device opens none = none
named_device opens (some name) = try_from opens (text "/dev/input/" ++ name)

-- The devices that the events name, of those that open.
unfoldable pub named_devices : (Text → Option OpenDevice) → List (Option Text) → List InputDevice
unfolding try_from
named_devices opens [] = []
named_devices opens (e ∷ es) =
    let rest = named_devices opens es in
    elim (named_device opens e) [ none ↦ rest | some d ↦ d ∷ rest ]

-- The names are those of the events of a watcher.
unfoldable pub handle_device_changes :
    (Text → Option OpenDevice)
    → Process
    → Filters
    → List (Option Text)
    → DeviceMap
    → Option Text
    → DeviceMap × Option Text
unfolding named_devices select extend_devices
handle_device_changes opens process f names m kept =
    let (ds, kept') = select process f (named_devices opens names) kept in
    (extend_devices ds m, kept')
