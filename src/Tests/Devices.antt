-- ===== src/Tests/Devices.antt =====
-- device.rs and main.rs on a keyboard that is released, unplugged and found again.
use ahk_wayland.Prelude.{
  ◌≡◌, ◌↔◌, refl, true, false, none, some, [], ◌∷◌, text, ◌==◌, if◌then◌else◌,
}
use ahk_wayland.Key.{key_space, key_a, key_z}
use ahk_wayland.Event.{press}
use ahk_wayland.InputDevice.Devices.{
  OpenDevice, InputDevice, DeviceFiles, Process, Filters, devices, grab,
}
use ahk_wayland.InputDevice.Grab.{IsReleasedBefore, grab-IsReleasedBefore}
use ahk_wayland.InputDevice.Selection.{get_input_devices}
use ahk_wayland.InputDevice.Selected.{own_name, AllChosen, Selects, get_input_devices-Selects}
use ahk_wayland.Handler.State.{ok}
use ahk_wayland.EventLoop.Input.{no_device}
use ahk_wayland.EventLoop.Rounds.{Setup, Loop, Round}
use ahk_wayland.EventLoop.Runs.{Reload, run_rounds, start_loop, output_name}
use ahk_wayland.EventLoop.OwnDevice.Runs.{run_rounds-AllChosen}
use ahk_wayland.EventLoop.Copying.{KeyInput, Copied, key_rounds, sent_by_all, run_rounds-Copied}
use ahk_wayland.Tests.Fixtures.{env, no_config, fresh}
use ahk_wayland.Tests.Keys.{no_config-IsEmptyConfig, fresh-IsIdle}
use ahk_wayland.Tests.Writing.{always, dispatcher}

-- A is held down at the first poll.
abbrev keyboard : OpenDevice
keyboard = record {
  name = some (text "Board");
  bus_type = 3;
  product = 1;
  vendor = 2;
  supported_keys = some (key_a ∷ key_space ∷ key_z ∷ []);
  has_absolute_axes = false;
  key_states = λ n. some (if n == 0 then key_a ∷ [] else []);
  can_grab = true;
}

abbrev board : InputDevice
board = record { path = text "/dev/input/event3"; device = keyboard }

grab-IsReleasedBefore_example :
    (grab board ≡ true) ↔ (IsReleasedBefore 50 board × (keyboard.can_grab ≡ true))
grab-IsReleasedBefore_example = grab-IsReleasedBefore board

abbrev files : DeviceFiles
files = record {
  entries = some (some (text "/dev/input/mouse0") ∷ none ∷ some (text "/dev/input/event3") ∷ []);
  opens = λ path. some keyboard;
}

abbrev this_process : Process
this_process = record { pid = text "7"; files = files }

abbrev filters : Filters
filters = record { device = []; ignore = text "Mouse" ∷ []; mouse = false }

files-devices : devices files ≡ some (board ∷ [])
unfolding devices
files-devices = refl

get_input_devices-Selects_example :
    Selects
      (own_name this_process none)
      filters
      true
      (board ∷ [])
      (get_input_devices files this_process filters true none).0
get_input_devices-Selects_example =
    get_input_devices-Selects files this_process filters true none (board ∷ []) files-devices

abbrev setup : Setup
setup = record {
  succeeds = always;
  process = this_process;
  filters = filters;
  watch_devices = true;
  watch_config = false;
  config_paths = text "/home/me/keys.ahk" ∷ [];
}

abbrev started : Loop
started = record {
  handler = fresh;
  dispatcher = dispatcher;
  config = no_config;
  input_devices = (text "/dev/input/event3", board) ∷ [];
  device_name = some (text "xremap");
}

started-start_loop : start_loop setup files none no_config fresh dispatcher ≡ ok started
unfolding start_loop
started-start_loop = refl

-- The keyboard is gone, and found again.
abbrev unplugged : Round
unplugged = record {
  timer = none;
  readable = (text "/dev/input/event3", no_device) ∷ [];
  device_events = none;
  config_events = none;
  opens = λ path. none;
  can_watch = λ path. true;
}

abbrev found_again : Reload
found_again = record { files = files; loaded = none }

unplugged-run_rounds : run_rounds setup ((unplugged, found_again) ∷ []) started ≡ ok started
unfolding run_rounds
unplugged-run_rounds = refl

run_rounds-AllChosen_example : AllChosen (output_name setup started) filters started.input_devices
run_rounds-AllChosen_example =
    run_rounds-AllChosen setup files none no_config fresh dispatcher ((unplugged, found_again) ∷ [])
      started started started-start_loop unplugged-run_rounds

abbrev a_pressed : KeyInput
a_pressed = (text "/dev/input/event3", (env, record { key = key_a; value = press }) ∷ []) ∷ []

run_rounds-Copied_example :
    (l' : Loop) × (run_rounds setup (key_rounds ((a_pressed, found_again) ∷ [])) started ≡ ok l')
    × Copied (sent_by_all started.input_devices ((a_pressed, found_again) ∷ [])) started l'
run_rounds-Copied_example =
    run_rounds-Copied setup (λ n. refl) ((a_pressed, found_again) ∷ []) started
      (no_config-IsEmptyConfig, fresh-IsIdle, refl)
