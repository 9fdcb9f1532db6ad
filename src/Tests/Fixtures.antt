-- ===== src/Tests/Fixtures.antt =====
-- Test data: a handler with nothing going on, its surroundings, and a configuration with no entry.
use ahk_wayland.Prelude.{
  true, false, none, some, [], text, map, to_ascii_lowercase, leb, if◌then◌else◌,
}
use ahk_wayland.World.{World}
use ahk_wayland.InputDevice.{InputDeviceInfo}
use ahk_wayland.Config.Types.{Config}
use ahk_wayland.Handler.State.{EventHandler, Env}

-- The window that is active changes with the third query.
abbrev pub world : World
world = record {
  kde = false;
  current_application = λ n. some (text "editor");
  current_window = λ n. if leb 2 n then some (text "Mail") else some (text "Editor");
  kdotool_class = λ n. none;
  kdotool_name = λ n. none;
  to_lowercase = map to_ascii_lowercase;
  is_match = λ pattern t. false;
}

abbrev pub env : Env
env = record { world = world; now = 0; timer_unset_ok = true; timer_set_ok = true; fuel = 10 }

abbrev pub device : InputDeviceInfo
device = record { name = text "keyboard"; path = text "/dev/input/event3"; product = 1; vendor = 2 }

abbrev pub no_config : Config
no_config = record {
  modmap = [];
  keymap = [];
  default_mode = text "default";
  virtual_modifiers = [];
  keypress_delay_ms = 0;
  keymap_table = [];
  enable_wheel = true;
  hotstrings = [];
  hotstring_matcher = none;
}

abbrev pub fresh : EventHandler
fresh = record {
  modifiers = [];
  extra_modifiers = [];
  pressed_keys = [];
  application_cache = none;
  title_cache = none;
  queries = 0;
  multi_purpose_keys = [];
  override_remaps = [];
  override_timeout_key = none;
  override_timer = none;
  mode = text "default";
  mark_set = false;
  escape_next_key = false;
  keypress_delay = 0;
  actions = [];
  hotstring_state = none;
  hotstring_buffer = [];
}
