-- ===== src/EventLoop/OwnDevice.antt =====
-- main.rs: the devices that are read and the name of the output device; what each source of events
-- does to them.
pub mod Runs
use ahk_wayland.Prelude.{
  ◌≡◌, refl, sym, ◌∙◌, Bool, true, false, Option, none, some, List, [], ◌∷◌, Text, if◌then◌else◌,
}
use mathlib.Core.Path.{subst}
use ahk_wayland.Config.Types.{Config}
use ahk_wayland.InputDevice.Devices.{InputDevice, OpenDevice, DeviceFiles, to_info}
use ahk_wayland.InputDevice.Selection.{DeviceMap, get_input_devices}
use ahk_wayland.InputDevice.Selected.{own_name, AllChosen}
use ahk_wayland.InputDevice.Changes.{
  handle_device_changes-chosen, handle_device_changes-own_name, get_input_devices-own_name,
  Selected, get_input_devices-Selected,
}
use ahk_wayland.Handler.State.{EventHandler, Env, Outcome, ok, err, panic, out_of_fuel, ◌>>=◌}
use ahk_wayland.Handler.OnEvent.{override_timeout}
use ahk_wayland.Dispatcher.{ActionDispatcher, Ran, done, failed, panicked}
use ahk_wayland.EventLoop.{handle_events}
use ahk_wayland.EventLoop.Input.{Fetched, handle_input_events}
use ahk_wayland.EventLoop.Rounds.{
  Setup, Loop, Round, WatchEvent, AfterRound, next_round, reload_devices, reload_config, timed,
  handle_timer, handled, handle_device, if_exists, get_device, handle_devices, event_names,
  change_devices, watch_devices, watch_again, is_config_changed, if_changed, handle_config_changes,
  watch_config,
}
use ahk_wayland.EventLoop.Runs.{
  after_devices, run_round, Reload, reselected, reload, run_rounds, reconfigured, start_loop,
  output_name,
}

abbrev pub Ensures {ℓ} : {A : Type ℓ} → (A → Type 0) → Outcome A → Type 0
Ensures P (ok a) = P a
Ensures P err = Unit
Ensures P panic = Unit
Ensures P out_of_fuel = Unit

pub Ensures-bind {ℓ κ} :
    {A : Type ℓ} {B : Type κ} (P : A → Type 0) (Q : B → Type 0) (m : Outcome A) (f : A → Outcome B)
    → Ensures P m
    → ((a : A) → P a → Ensures Q (f a))
    → Ensures Q (m >>= f)
Ensures-bind P Q (ok a) f h k = k a h
Ensures-bind P Q err f h k = tt
Ensures-bind P Q panic f h k = tt
Ensures-bind P Q out_of_fuel f h k = tt

module _ (setup : Setup) (name : Text) where
  -- The output device has this name, and the devices that are read were all chosen by it.
  abbrev pub IsOurs : Loop → Type 0
  IsOurs l =
      (own_name setup.process l.device_name ≡ name) × AllChosen name setup.filters l.input_devices

  abbrev IsOursAfter : {A : Type 0} → (A × Loop) → Type 0
  IsOursAfter r = IsOurs r.1

  timed-IsOurs :
      (l : Loop) (o : Outcome (EventHandler × Ran)) → IsOurs l → Ensures IsOurs (timed l o)
  timed-IsOurs l (ok (s, done d)) h = h
  timed-IsOurs l (ok (s, failed d)) h = h
  timed-IsOurs l (ok (s, panicked d)) h = tt
  timed-IsOurs l err h = h
  timed-IsOurs l panic h = tt
  timed-IsOurs l out_of_fuel h = tt

  pub handle_timer-IsOurs :
      (timer : Option Env) (l : Loop) → IsOurs l → Ensures IsOurs (handle_timer setup timer l)
  handle_timer-IsOurs none l h = h
  handle_timer-IsOurs (some env) l h =
      timed-IsOurs l
        (handle_events setup.succeeds l.config ((env, override_timeout) ∷ []) l.handler
          l.dispatcher)
        h

  handled-IsOurs :
      (l : Loop) (o : Outcome (Bool × EventHandler × Ran))
      → IsOurs l
      → Ensures (IsOursAfter {A = Bool}) (handled l o)
  handled-IsOurs l (ok (b, s, done d)) h = h
  handled-IsOurs l (ok (b, s, failed d)) h = tt
  handled-IsOurs l (ok (b, s, panicked d)) h = tt
  handled-IsOurs l err h = tt
  handled-IsOurs l panic h = tt
  handled-IsOurs l out_of_fuel h = tt

  handle_device-IsOurs :
      (input : Fetched) (o : Option InputDevice) (l : Loop)
      → IsOurs l
      → Ensures (IsOursAfter {A = Bool}) (handle_device setup input o l)
  handle_device-IsOurs input none l h = h
  handle_device-IsOurs input (some d) l h =
      handled-IsOurs l
        (handle_input_events setup.succeeds l.config (to_info d) input l.handler l.dispatcher) h

  if_exists-IsOurs :
      (go_on : Loop → Outcome (Bool × Loop)) (b : Bool) (l : Loop)
      → IsOurs l
      → ((l' : Loop) → IsOurs l' → Ensures (IsOursAfter {A = Bool}) (go_on l'))
      → Ensures (IsOursAfter {A = Bool}) (if_exists go_on (b, l))
  if_exists-IsOurs go_on true l h k = k l h
  if_exists-IsOurs go_on false l h k = h

  pub handle_devices-IsOurs :
      (es : List (Text × Fetched)) (l : Loop)
      → IsOurs l
      → Ensures (IsOursAfter {A = Bool}) (handle_devices setup es l)
  unfolding handle_devices
  handle_devices-IsOurs [] l h = h
  handle_devices-IsOurs ((path, input) ∷ es) l h =
      Ensures-bind (IsOursAfter {A = Bool}) (IsOursAfter {A = Bool})
        (handle_device setup input (get_device path l.input_devices) l)
        (if_exists (handle_devices setup es))
        (handle_device-IsOurs input (get_device path l.input_devices) l h)
        (λ r k.
          if_exists-IsOurs (handle_devices setup es) r.0 r.1 k
            (λ l' k'. handle_devices-IsOurs es l' k'))

  change_devices-IsOurs :
      (opens : Text → Option OpenDevice) (es : List WatchEvent) (l : Loop)
      → IsOurs l
      → IsOurs (change_devices setup opens es l)
  change_devices-IsOurs opens es l h = (
    handle_device_changes-own_name opens setup.process setup.filters (event_names es)
          l.input_devices l.device_name
        ∙ h.0,
    subst
        (λ (n : Text).
          AllChosen n setup.filters l.input_devices
          → AllChosen n setup.filters (change_devices setup opens es l).input_devices)
        h.0
        (handle_device_changes-chosen opens setup.process setup.filters (event_names es)
          l.input_devices l.device_name).1
        h.1,
  )

  pub watch_devices-IsOurs :
      (watches : Bool) (es : Option (List WatchEvent)) (round : Round) (l : Loop)
      → IsOurs l
      → IsOurs (watch_devices setup watches es round l)
  watch_devices-IsOurs true (some es) round l h = change_devices-IsOurs round.opens es l h
  watch_devices-IsOurs true none round l h = h
  watch_devices-IsOurs false es round l h = h

  if_changed-IsOurs :
      (round : Round) (es : List WatchEvent) (l : Loop) (watched changed : Bool)
      → IsOurs l
      → Ensures (IsOursAfter {A = Bool}) (if_changed setup round es l watched changed)
  if_changed-IsOurs round es l false changed h = tt
  if_changed-IsOurs round es l true true h = h
  if_changed-IsOurs round es l true false h = change_devices-IsOurs round.opens es l h

  pub watch_config-IsOurs :
      (watches : Bool) (es : Option (List WatchEvent)) (round : Round) (l : Loop)
      → IsOurs l
      → Ensures (IsOursAfter {A = Bool}) (watch_config setup watches es round l)
  unfolding handle_config_changes
  watch_config-IsOurs true (some es) round l h =
      if_changed-IsOurs round es l (watch_again setup round es) (is_config_changed setup es) h
  watch_config-IsOurs true none round l h = h
  watch_config-IsOurs false es round l h = h
