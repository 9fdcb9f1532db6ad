-- ===== src/EventLoop/Rounds.antt =====
-- main.rs: what a round of the event loop does with each source of events. The order in which a
-- `HashMap` gives the devices is not fixed, and neither is it here.
use ahk_wayland.Prelude.{
  ℕ, Bool, true, false, not, ◌&&◌, ◌||◌, Option, none, some, List, [], ◌∷◌, Text, text_eq, any,
  if◌then◌else◌,
}
use ahk_wayland.Config.Types.{Config}
use ahk_wayland.InputDevice.{file_name, or_default}
use ahk_wayland.InputDevice.Devices.{InputDevice, OpenDevice, Process, Filters, to_info}
use ahk_wayland.InputDevice.Selection.{DeviceMap, handle_device_changes}
use ahk_wayland.Handler.State.{EventHandler, Env, Outcome, ok, err, panic, out_of_fuel, ◌>>=◌}
use ahk_wayland.Handler.Lookup.{tap_keys, or_no_keys}
use ahk_wayland.Handler.OnEvent.{override_timeout}
use ahk_wayland.Dispatcher.{ActionDispatcher, Ran, done, failed, panicked}
use ahk_wayland.EventLoop.{handle_events}
use ahk_wayland.EventLoop.Input.{Fetched, handle_input_events}

-- What the loop is started with: whether the n-th request of the dispatcher succeeds, the process,
-- the command line's filters, what is watched, and the paths of the configuration.
pub record Setup : Type 0 where
  pub succeeds : ℕ → Bool
  pub process : Process
  pub filters : Filters
  pub watch_devices : Bool
  pub watch_config : Bool
  pub config_paths : List Text

-- The variables of `main` that the loop changes, and the static DEVICE_NAME.
pub record Loop : Type 0 where
  pub handler : EventHandler
  pub dispatcher : ActionDispatcher
  pub config : Config
  pub input_devices : DeviceMap
  pub device_name : Option Text

-- An inotify event: its name, and whether its mask has IN_CREATE or IN_MOVED_TO, and IN_MODIFY.
pub record WatchEvent : Type 0 where
  pub name : Option Text
  pub is_created : Bool
  pub is_modified : Bool

-- What a round meets: the timer, the devices that are readable, in the order of the map, the events
-- of the two watchers (none is an error of the read), and what opens and can be watched.
pub record Round : Type 0 where
  pub timer : Option Env
  pub readable : List (Text × Fetched)
  pub device_events : Option (List WatchEvent)
  pub config_events : Option (List WatchEvent)
  pub opens : Text → Option OpenDevice
  pub can_watch : Text → Bool

-- How a round ends: the next one, or a reload.
pub data AfterRound : Type 0 where
  next_round reload_devices reload_config : AfterRound

-- The error of `on_events` on a timeout is that of the timer: the keys are sent by then.
abbrev pub after_failed_timeout : EventHandler → EventHandler
after_failed_timeout s =
    tap_keys (or_no_keys s.override_timeout_key) (record s { override_timeout_key = none })

-- Errors on a timeout are logged.
abbrev pub timed : Loop → Outcome (EventHandler × Ran) → Outcome Loop
timed l (ok (h, done d)) = ok (record l { handler = h; dispatcher = d })
timed l (ok (h, failed d)) = ok (record l { handler = h; dispatcher = d })
timed l (ok (h, panicked d)) = panic
timed l err = ok (record l { handler = after_failed_timeout l.handler })
timed l panic = panic
timed l out_of_fuel = out_of_fuel

abbrev pub handle_timer : Setup → Option Env → Loop → Outcome Loop
handle_timer setup none l = ok l
handle_timer setup (some env) l =
    timed l
      (handle_events setup.succeeds l.config ((env, override_timeout) ∷ []) l.handler l.dispatcher)

-- Errors on input end the program. The result says whether the device exists.
abbrev pub handled : Loop → Outcome (Bool × EventHandler × Ran) → Outcome (Bool × Loop)
handled l (ok (exists, h, done d)) = ok (exists, record l { handler = h; dispatcher = d })
handled l (ok (exists, h, failed d)) = err
handled l (ok (exists, h, panicked d)) = panic
handled l err = err
handled l panic = panic
handled l out_of_fuel = out_of_fuel

abbrev pub get_device : Text → DeviceMap → Option InputDevice
get_device p [] = none
get_device p ((q, d) ∷ m) = if text_eq q p then some d else get_device p m

abbrev pub handle_device : Setup → Fetched → Option InputDevice → Loop → Outcome (Bool × Loop)
handle_device setup input none l = ok (true, l)
handle_device setup input (some d) l =
    handled l (handle_input_events setup.succeeds l.config (to_info d) input l.handler l.dispatcher)

abbrev pub if_exists : (Loop → Outcome (Bool × Loop)) → Bool × Loop → Outcome (Bool × Loop)
if_exists go_on (true, l) = go_on l
if_exists go_on (false, l) = ok (false, l)

-- The loop over the devices, up to the first that does not exist.
unfoldable pub handle_devices : Setup → List (Text × Fetched) → Loop → Outcome (Bool × Loop)
unfolding handle_input_events
handle_devices setup [] l = ok (true, l)
handle_devices setup ((path, input) ∷ more) l = do
  handled_one ← handle_device setup input (get_device path l.input_devices) l
  if_exists (handle_devices setup more) handled_one

abbrev pub event_names : List WatchEvent → List (Option Text)
event_names [] = []
event_names (e ∷ es) = e.name ∷ event_names es

abbrev pub change_devices : Setup → (Text → Option OpenDevice) → List WatchEvent → Loop → Loop
change_devices setup opens es l =
    let (m, kept) =
      handle_device_changes opens setup.process setup.filters (event_names es) l.input_devices
        l.device_name in
    record l { input_devices = m; device_name = kept }

-- The device watcher, if there is one, and what was read of it.
abbrev pub watch_devices : Setup → Bool → Option (List WatchEvent) → Round → Loop → Loop
watch_devices setup true (some es) round l = change_devices setup round.opens es l
watch_devices setup _ _ round l = l

-- A file of the configuration that came back is watched again: whether all of that succeeds.
unfoldable pub watch_again : Setup → Round → List WatchEvent → Bool
watch_again setup round [] = true
watch_again setup round (e ∷ es) =
    let rest = watch_again setup round es in
    let failing =
      any (λ path. text_eq (file_name path) (or_default [] e.name) && not (round.can_watch path))
        setup.config_paths in
    not (e.is_created && failing) && rest

abbrev is_config_name : Setup → Option Text → Bool
is_config_name setup none = false
is_config_name setup (some name) = any (λ path. text_eq name (file_name path)) setup.config_paths

-- Whether an event is about the configuration.
unfoldable pub is_config_changed : Setup → List WatchEvent → Bool
is_config_changed setup es = any (λ e. is_config_name setup e.name || e.is_modified) es

abbrev pub if_changed : Setup → Round → List WatchEvent → Loop → Bool → Bool → Outcome (Bool × Loop)
if_changed setup round es l false changed = err
if_changed setup round es l true true = ok (false, l)
if_changed setup round es l true false = ok (true, change_devices setup round.opens es l)

-- The result says whether the round goes on.
unfoldable pub handle_config_changes :
    Setup → Round → List WatchEvent → Loop → Outcome (Bool × Loop)
unfolding watch_again is_config_changed handle_device_changes
handle_config_changes setup round es l =
    if_changed setup round es l (watch_again setup round es) (is_config_changed setup es)

-- The configuration's watcher, if there is one, and what was read of it.
abbrev pub watch_config :
    Setup → Bool → Option (List WatchEvent) → Round → Loop → Outcome (Bool × Loop)
watch_config setup true (some es) round l = handle_config_changes setup round es l
watch_config setup _ _ round l = ok (true, l)
