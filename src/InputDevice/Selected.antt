-- ===== src/InputDevice/Selected.antt =====
-- device.rs and main.rs: what the devices that are read have in common.
use ahk_wayland.Prelude.{
  ◌≡◌, ◌≢◌, refl, sym, ap, ◌∙◌, arith, Bool, true, false, not, ◌&&◌, ◌||◌, Option, none, some, List,
  [], ◌∷◌, Text, text_eq, text_eq_iff, is_empty, any, retain, All, if◌then◌else◌,
}
use mathlib.Core.Path.{subst}
use ahk_wayland.InputDevice.Devices.{
  InputDevice, DeviceFiles, Process, Filters, device_name, devices, current_name, wants,
  is_input_device, grab,
}
use ahk_wayland.InputDevice.Selection.{
  DeviceMap, insert, sort, select, insert_device, extend_devices, listed, get_input_devices,
}

abbrev pub own_name : Process → Option Text → Text
own_name process kept = (current_name process kept).0

-- A device that the filters want and that can be grabbed.
abbrev pub chooses : Text → Filters → InputDevice → Bool
chooses name f d = wants name f d && grab d

chooses-foreign :
    (name : Text) (f : Filters) (d : InputDevice) → chooses name f d ≡ true → device_name d ≢ name
unfolding wants
chooses-foreign name f d c own =
    let same = (text_eq_iff (device_name d) name).1 own in ground (arith, c, same)

-- Each device stands at its path, was chosen, and is not the program's own.
abbrev pub AllChosen : Text → Filters → DeviceMap → Type 0
AllChosen name f m =
    All
      (λ (e : Text × InputDevice).
        (e.1.path ≡ e.0) × (chooses name f e.1 ≡ true) × (device_name e.1 ≢ name))
      m

abbrev pub has_path : Text → DeviceMap → Bool
has_path p m = any (λ (e : Text × InputDevice). text_eq e.0 p) m

pub select-retain :
    (process : Process) (f : Filters) (ds : List InputDevice) (kept : Option Text)
    → (select process f ds kept).0 ≡ retain (chooses (own_name process kept) f) ds
unfolding select is_input_device current_name
select-retain process f [] kept = refl
select-retain process f (d ∷ ds) kept =
    rw (select-retain process f ds (some (own_name process kept))) refl

any-insert :
    (q : InputDevice → Bool) (d : InputDevice) (es : List InputDevice)
    → any q (insert d es) ≡ (q d || any q es)
unfolding insert
any-insert q d [] = refl
any-insert q d (e ∷ es) = ground (arith, any-insert q d es)

any-sort : (q : InputDevice → Bool) (ds : List InputDevice) → any q (sort ds) ≡ any q ds
unfolding sort
any-sort q [] = refl
any-sort q (d ∷ ds) = any-insert q d (sort ds) ∙ ap (λ b. q d || b) (any-sort q ds)

pub any-retain :
    (q r : InputDevice → Bool) (ds : List InputDevice)
    → any q (retain r ds) ≡ any (λ d. r d && q d) ds
any-retain q r [] = refl
any-retain q r (d ∷ ds) = ground (arith, any-retain q r ds)

has_path-insert_device :
    (p : Text) (d : InputDevice) (m : DeviceMap)
    → has_path p (insert_device d m) ≡ (text_eq d.path p || has_path p m)
unfolding insert_device
has_path-insert_device p d [] = refl
has_path-insert_device p d ((q, e) ∷ m) = ground (arith, has_path-insert_device p d m, same)
  where
    same : text_eq d.path q ≡ true → text_eq d.path p ≡ text_eq q p
    same h = ap (λ t. text_eq t p) ((text_eq_iff d.path q).0 h)

pub has_path-extend_devices :
    (p : Text) (ds : List InputDevice) (m : DeviceMap)
    → has_path p (extend_devices ds m) ≡ (any (λ d. text_eq d.path p) ds || has_path p m)
unfolding extend_devices
has_path-extend_devices p [] m = refl
has_path-extend_devices p (d ∷ ds) m =
    ground (arith, has_path-extend_devices p ds (insert_device d m), has_path-insert_device p d m)

insert_device-AllChosen :
    (name : Text) (f : Filters) (d : InputDevice) (m : DeviceMap)
    → chooses name f d ≡ true
    → AllChosen name f m
    → AllChosen name f (insert_device d m)
unfolding insert_device
insert_device-AllChosen name f d [] c h = ((refl, c, chooses-foreign name f d c), tt)
insert_device-AllChosen name f d ((p, e) ∷ m) c h =
    (elim (text_eq d.path p)
        as (λ b.
          text_eq d.path p ≡ b
          → AllChosen name f (if b then (p, d) ∷ m else (p, e) ∷ insert_device d m)) [
            | true ↦ λ same. (((text_eq_iff d.path p).0 same, c, chooses-foreign name f d c), h.1)
            | false ↦ λ other. (h.0, insert_device-AllChosen name f d m c h.1)
          ])
      refl

pub extend_devices-AllChosen :
    (name : Text) (f : Filters) (ds : List InputDevice) (m : DeviceMap)
    → AllChosen name f m
    → AllChosen name f (extend_devices (retain (chooses name f) ds) m)
unfolding extend_devices
extend_devices-AllChosen name f [] m h = h
extend_devices-AllChosen name f (d ∷ ds) m h =
    (elim (chooses name f d)
        as (λ b.
          chooses name f d ≡ b
          → AllChosen name f (
              extend_devices
                (if b then d ∷ retain (chooses name f) ds else retain (chooses name f) ds) m)) [
                  | true ↦ λ c.
                      extend_devices-AllChosen name f ds (insert_device d m)
                        (insert_device-AllChosen name f d m c h)
                  | false ↦ λ c. extend_devices-AllChosen name f ds m h
                ])
      refl

-- What the selection comes to: an error just if nothing is chosen and new devices are not waited for;
-- if not, the paths of the devices chosen.
abbrev pub Selects : Text → Filters → Bool → List InputDevice → Option DeviceMap → Type 0
Selects name f watch ds none = (any (chooses name f) ds ≡ false) × (watch ≡ false)
Selects name f watch ds (some m) =
    ((any (chooses name f) ds || watch) ≡ true)
    × ((p : Text) → has_path p m ≡ any (λ d. chooses name f d && text_eq d.path p) ds)
    × AllChosen name f m

any-not_is_empty :
    (q : InputDevice → Bool) (ds : List InputDevice) → any q ds ≡ not (is_empty (retain q ds))
any-not_is_empty q [] = refl
any-not_is_empty q (d ∷ ds) = ground (arith, any-not_is_empty q ds)

has_path-none :
    (p : Text) (ds : List InputDevice)
    → has_path p (extend_devices ds []) ≡ any (λ d. text_eq d.path p) ds
has_path-none p ds = has_path-extend_devices p ds [] ∙ ground arith

paths :
    (name : Text) (f : Filters) (ds sorted : List InputDevice)
    → ((q : InputDevice → Bool) → any q sorted ≡ any q ds)
    → (p : Text)
    → has_path p (extend_devices (retain (chooses name f) sorted) [])
      ≡ any (λ d. chooses name f d && text_eq d.path p) ds
paths name f ds sorted same p =
    has_path-none p (retain (chooses name f) sorted)
    ∙ any-retain (λ d. text_eq d.path p) (chooses name f) sorted
    ∙ same (λ d. chooses name f d && text_eq d.path p)

selection-Selects :
    (name : Text) (f : Filters) (watch : Bool) (ds sorted : List InputDevice) (b : Bool)
    → ((q : InputDevice → Bool) → any q sorted ≡ any q ds)
    → any (chooses name f) ds ≡ not b
    → Selects name f watch ds
        (if b && not watch then none else some (extend_devices (retain (chooses name f) sorted) []))
selection-Selects name f false ds sorted true same found = (found, refl)
selection-Selects name f true ds sorted true same found =
    (ground arith, paths name f ds sorted same, extend_devices-AllChosen name f sorted [] tt)
selection-Selects name f watch ds sorted false same found = (
  ground (arith, found),
  paths name f ds sorted same,
  extend_devices-AllChosen name f sorted [] tt,
)

pub listed-Selects :
    (process : Process) (f : Filters) (watch : Bool) (kept : Option Text) (ds : List InputDevice)
    → Selects (own_name process kept) f watch ds (listed process f watch kept (some ds)).0
unfolding listed
listed-Selects process f watch kept ds =
    subst
      (λ (r : List InputDevice).
        Selects (own_name process kept) f watch ds
          (if is_empty r && not watch then none else some (extend_devices r [])))
      (sym (select-retain process f (sort ds) kept))
      (selection-Selects (own_name process kept) f watch ds (sort ds)
        (is_empty (retain (chooses (own_name process kept) f) (sort ds))) (λ q. any-sort q ds)
        (sym (any-sort (chooses (own_name process kept) f) ds)
          ∙ any-not_is_empty (chooses (own_name process kept) f) (sort ds)))

-- Given the devices of the directory, the selection is an error just if the filters choose none of
-- them and new devices are not watched for. If it is not, the map has just the paths of the devices
-- that are chosen, each with a device of that path that the filters want, that was grabbed, and that
-- does not bear the name of the program's own device.
pub get_input_devices-Selects :
    (files : DeviceFiles) (process : Process) (f : Filters) (watch : Bool) (kept : Option Text)
    → (ds : List InputDevice) → devices files ≡ some ds
    → Selects (own_name process kept) f watch ds (get_input_devices files process f watch kept).0
unfolding get_input_devices
get_input_devices-Selects files process f watch kept ds e =
    subst
      (λ (o : Option (List InputDevice)).
        Selects (own_name process kept) f watch ds (listed process f watch kept o).0)
      (sym e) (listed-Selects process f watch kept ds)
