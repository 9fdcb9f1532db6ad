-- ===== src/EventLoop/Runs.antt =====
-- main.rs: the rounds of the event loop, the two reloads between its runs, and its start.
use ahk_wayland.Prelude.{
  ℕ, Bool, true, false, Option, none, some, List, [], ◌∷◌, Text, if◌then◌else◌,
}
use ahk_wayland.Config.Types.{Config}
use ahk_wayland.InputDevice.{from_hex, trim_0x, or_default}
use ahk_wayland.InputDevice.Devices.{DeviceFiles, current_name}
use ahk_wayland.InputDevice.Selection.{DeviceMap, get_input_devices, handle_device_changes}
use ahk_wayland.Handler.State.{EventHandler, Outcome, ok, err, ◌>>=◌}
use ahk_wayland.Dispatcher.{ActionDispatcher}
use ahk_wayland.EventLoop.{handle_events}
use ahk_wayland.EventLoop.Rounds.{
  Setup, Loop, Round, AfterRound, next_round, reload_devices, reload_config, handle_timer,
  handle_devices, watch_devices, handle_config_changes, watch_config,
}

-- The watchers.
abbrev pub watch : Setup → Bool → Bool → Round → Loop → Outcome (AfterRound × Loop)
watch setup devices config round l = do
  let l1 = watch_devices setup devices round.device_events round l
  (goes_on, l2) ← watch_config setup config round.config_events round l1
  ok (if goes_on then next_round else reload_config, l2)

-- What comes after the devices: nothing more, if one of them is gone.
abbrev pub after_devices : Setup → Round → Bool × Loop → Outcome (AfterRound × Loop)
after_devices setup round (false, l) = ok (reload_devices, l)
after_devices setup round (true, l) = watch setup setup.watch_devices setup.watch_config round l

-- One turn of the inner loop.
unfoldable pub run_round : Setup → Round → Loop → Outcome (AfterRound × Loop)
unfolding handle_events handle_devices handle_device_changes handle_config_changes
run_round setup round l = do
  timed_out ← handle_timer setup round.timer l
  read ← handle_devices setup round.readable timed_out
  after_devices setup round read

-- What a reload meets: the directory of the devices, and the configuration, unless it does not load.
pub record Reload : Type 0 where
  pub files : DeviceFiles
  pub loaded : Option Config

abbrev pub reselected : Loop → Option DeviceMap × Option Text → Outcome Loop
reselected l (none, kept) = err
reselected l (some m, kept) = ok (record l { input_devices = m; device_name = kept })

abbrev pub reconfigured : Loop → Option Config → Loop
reconfigured l none = l
reconfigured l (some config) = record l { config = config }

-- One turn of the outer loop, whose inner loop ends at once or after more turns. The release of the
-- old devices is left out.
unfoldable pub reload : Setup → Reload → AfterRound × Loop → Outcome Loop
unfolding get_input_devices
reload setup r (next_round, l) = ok l
reload setup r (reload_devices, l) =
    reselected l
      (get_input_devices r.files setup.process setup.filters setup.watch_devices l.device_name)
reload setup r (reload_config, l) = ok (reconfigured l r.loaded)

unfoldable pub run_rounds : Setup → List (Round × Reload) → Loop → Outcome Loop
unfolding run_round reload
run_rounds setup [] l = ok l
run_rounds setup ((round, r) ∷ more) l = do
  after ← run_round setup round l
  l' ← reload setup r after
  run_rounds setup more l'

-- The part of `main` before the loop, with the configuration, the handler and the dispatcher that it
-- makes, and the directory as it then is.
unfoldable pub start_loop :
    Setup → DeviceFiles → Option Text → Config → EventHandler → ActionDispatcher → Outcome Loop
unfolding get_input_devices
start_loop setup files kept config handler dispatcher =
    let l : Loop = record {
      handler = handler;
      dispatcher = dispatcher;
      config = config;
      input_devices = [];
      device_name = kept;
    } in
    reselected l (get_input_devices files setup.process setup.filters setup.watch_devices kept)

-- The name that `output_device` gives to the virtual device.
abbrev pub output_name : Setup → Loop → Text
output_name setup l = (current_name setup.process l.device_name).0

-- The vendor or the product of the output device, or its default.
unfoldable pub output_id : Option Text → ℕ → ℕ
unfolding from_hex trim_0x
output_id given default = or_default default (from_hex (trim_0x (or_default [] given)))
