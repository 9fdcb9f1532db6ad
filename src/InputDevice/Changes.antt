-- ===== src/InputDevice/Changes.antt =====
-- device.rs and main.rs: the devices after a change, and the name of the program's own device.
use ahk_wayland.Prelude.{
  ◌≡◌, refl, sym, ap, ◌∙◌, Bool, ◌&&◌, ◌||◌, Option, none, some, List, [], ◌∷◌, Text, text_eq, any,
  retain,
}
use mathlib.Core.Path.{subst}
use ahk_wayland.InputDevice.Devices.{
  InputDevice, OpenDevice, DeviceFiles, Process, Filters, devices, current_name, is_input_device,
}
use ahk_wayland.InputDevice.Selection.{
  DeviceMap, sort, select, extend_devices, listed, get_input_devices, named_devices,
  handle_device_changes,
}
use ahk_wayland.InputDevice.Selected.{
  own_name, chooses, AllChosen, has_path, select-retain, any-retain, has_path-extend_devices,
  extend_devices-AllChosen, Selects, listed-Selects,
}

-- After changes under /dev/input the map has the paths that it had and those of the devices that are
-- named, open and are chosen; and if its devices were all chosen, they all are still.
pub handle_device_changes-chosen :
    (opens : Text → Option OpenDevice) (process : Process) (f : Filters)
    (names : List (Option Text))
    → (m : DeviceMap) (kept : Option Text)
    → let name = own_name process kept in
      let m' = (handle_device_changes opens process f names m kept).0 in
      ((p : Text)
        → has_path p m' ≡ (
            any (λ d. chooses name f d && text_eq d.path p) (named_devices opens names)
            || has_path p m))
      × (AllChosen name f m → AllChosen name f m')
unfolding handle_device_changes
handle_device_changes-chosen opens process f names m kept =
    subst
      (λ (ds : List InputDevice).
        ((p : Text)
          → has_path p (extend_devices ds m) ≡ (
              any (λ d. chooses (own_name process kept) f d && text_eq d.path p)
                (named_devices opens names)
              || has_path p m))
        × (AllChosen (own_name process kept) f m
            → AllChosen (own_name process kept) f (extend_devices ds m)))
      (sym (select-retain process f (named_devices opens names) kept))
      (
        λ p.
            has_path-extend_devices p
              (retain (chooses (own_name process kept) f) (named_devices opens names)) m
            ∙ ap (λ b. b || has_path p m)
                (any-retain (λ d. text_eq d.path p) (chooses (own_name process kept) f)
                  (named_devices opens names)),
        extend_devices-AllChosen (own_name process kept) f (named_devices opens names) m,
      )

-- The name of the program's own device, once it is asked for, is the name from then on.
select-own_name :
    (process : Process) (f : Filters) (ds : List InputDevice) (kept : Option Text)
    → own_name process (select process f ds kept).1 ≡ own_name process kept
unfolding select is_input_device current_name
select-own_name process f [] kept = refl
select-own_name process f (d ∷ ds) kept =
    select-own_name process f ds (some (own_name process kept))

listed-own_name :
    (process : Process) (f : Filters) (watch : Bool) (kept : Option Text)
    → (o : Option (List InputDevice))
    → own_name process (listed process f watch kept o).1 ≡ own_name process kept
unfolding listed
listed-own_name process f watch kept none = refl
listed-own_name process f watch kept (some ds) = select-own_name process f (sort ds) kept

pub get_input_devices-own_name :
    (files : DeviceFiles) (process : Process) (f : Filters) (watch : Bool) (kept : Option Text)
    → own_name process (get_input_devices files process f watch kept).1 ≡ own_name process kept
unfolding get_input_devices
get_input_devices-own_name files process f watch kept =
    listed-own_name process f watch kept (devices files)

pub handle_device_changes-own_name :
    (opens : Text → Option OpenDevice) (process : Process) (f : Filters)
    (names : List (Option Text))
    → (m : DeviceMap) (kept : Option Text)
    → own_name process (handle_device_changes opens process f names m kept).1
      ≡ own_name process kept
unfolding handle_device_changes
handle_device_changes-own_name opens process f names m kept =
    select-own_name process f (named_devices opens names) kept

-- The devices of a selection, if there is no error.
abbrev pub Selected : Text → Filters → Option DeviceMap → Type 0
Selected name f none = Unit
Selected name f (some m) = AllChosen name f m

Selects-Selected :
    (name : Text) (f : Filters) (watch : Bool) (ds : List InputDevice) (o : Option DeviceMap)
    → Selects name f watch ds o
    → Selected name f o
Selects-Selected name f watch ds none h = tt
Selects-Selected name f watch ds (some m) h = h.2

listed-Selected :
    (process : Process) (f : Filters) (watch : Bool) (kept : Option Text)
    → (o : Option (List InputDevice))
    → Selected (own_name process kept) f (listed process f watch kept o).0
unfolding listed
listed-Selected process f watch kept none = tt
listed-Selected process f watch kept (some ds) =
    Selects-Selected (own_name process kept) f watch ds (listed process f watch kept (some ds)).0
      (listed-Selects process f watch kept ds)

pub get_input_devices-Selected :
    (files : DeviceFiles) (process : Process) (f : Filters) (watch : Bool) (kept : Option Text)
    → Selected (own_name process kept) f (get_input_devices files process f watch kept).0
unfolding get_input_devices
get_input_devices-Selected files process f watch kept =
    listed-Selected process f watch kept (devices files)
