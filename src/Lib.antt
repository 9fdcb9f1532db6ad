-- ===== src/Lib.antt =====
-- Verification of ahk-wayland: a key remapper for Linux that reads YAML, TOML and AutoHotkey files.
--
-- The program. Events of input devices come to the event handler (src/event_handler.rs). For each
-- key event it looks for a modmap, which may replace the key, hold it back as a multi-purpose key
-- or run actions; it then sends modifiers on and keeps a set of those held, gives every other
-- key that is pressed to the hotstring matcher (src/hotstring.rs), and looks for a keymap entry, in
-- the open nested remaps first. The actions of an entry append to the handler's list of actions,
-- which the event loop (src/main.rs) takes after every round and hands to the dispatcher
-- (src/action_dispatcher.rs), which writes to the virtual device. The configuration comes of one or
-- more files (src/config/mod.rs). An AutoHotkey file is parsed (src/ahk/parser.rs), and its actions
-- are converted to shell commands, or go through the interpreter (src/ahk/interpreter.rs), which
-- asks for the active window (src/client/mod.rs) and reads Send strings (src/ahk/send_parser.rs).
--
-- The files.
--   Prelude            shared names, tests, lists, texts; a text is the list of its character codes
--   Key                the key codes of evdev that the program names, and MODIFIER_KEYS
--   Event              src/event.rs and src/action.rs
--   World              what other code answers: window managers, case tables, regular expressions
--   Keyboard           no code: the keys that are down after a list of actions
--   Hotstring          src/hotstring.rs: from_trigger, process; `feed` types a text into process.
--                      Below it Spelling says what it means to be typed, and Soundness,
--                      Completeness, Boundary and Start hold the theorems
--   Ahk.Types          src/ahk/types.rs
--   Ahk.SendParser     src/ahk/send_parser.rs: parse_send_string, one character a step
--   Ahk.PassThrough    src/ahk/parser.rs, parse_hotkey: the string that passes a hotkey on
--   Ahk.Escape         src/ahk/parser.rs: unescape_ahk_string
--   Ahk.KeyNames       src/ahk/parser.rs: string_to_key
--   Ahk.Parsed         how the functions of the parser end, and what is meant by enough fuel
--   Ahk.Criteria, Ahk.KeyCombo, Ahk.ActionParser  src/ahk/parser.rs: parse_window_criteria,
--                      parse_key_combo, parse_action
--   Ahk.Blocks         src/ahk/parser.rs: parse_block_actions and the loop of parse_multiline_hotkey
--   Ahk.Hotkeys, Ahk.FileParser  src/ahk/parser.rs: parse_hotkey and parse_multiline_hotkey; parse_file
--   Ahk.Transpiler     src/ahk/transpiler.rs
--   Ahk.SendActions    src/ahk/interpreter.rs: convert_send_to_actions
--   Ahk.Interpreter    src/ahk/interpreter.rs: execute and the rest that it calls
--   Config.Types       the data of src/config/; Config.Keymap is src/config/keymap.rs
--   Config.Application  src/config/application.rs: from_str, slash_unescape
--   Config.KeyNames    src/config/key.rs, and the parsers of src/config/key_press.rs
--   Config.Deserialize  the deserialisers of src/config/, over the values that serde hands them
--   Config.Shell, Config.Convert, Config.Load  src/config/mod.rs: scripts; convert_actions and
--                      convert_ahk_hotkey_to_keymap; load_configs
--   InputDevice        src/device.rs: InputDeviceInfo::matches, and match_device of the handler; below
--                      it Devices is is_input_device, grab and current_name, Output output_device,
--                      Selection get_input_devices and handle_device_changes of src/main.rs
--   Handler.State      the state of EventHandler, what surrounds it, and how its functions end
--   Handler.Modifiers  update_modifier, diff_modifiers, send_key_press_and_release, with_mark
--   Handler.MultiPurpose  the methods of MultiPurposeKeyState, flush_timeout_keys, maintain_pressed_keys
--   Handler.Matching   match_window, match_application, find_modmap
--   Handler.Lookup     find_keymap, remove_override, timeout_override
--   Handler.Dispatch   dispatch_keys, dispatch_actions, dispatch_action
--   Handler.Typing     key_to_char, and what on_key_event does with a hotstring
--   Handler.OnEvent    on_key_event, on_relative_event, on_events
--   Handler.Lifetime   the events of a multi-purpose key, put together from parts of on_key_event
--   Dispatcher         src/action_dispatcher.rs: on_action, and the requests that it makes
--   EventLoop          src/main.rs: handle_events; below it Input is handle_input_events and Event::new
--                      of src/event.rs, Rounds what a round does with each source of events, Runs the
--                      rounds, the reloads and the start
--   WmClient           src/client/mod.rs: WMClient, build_client; below it Wlroots, X11, Kde and
--                      Desktops are the clients of src/client/
--   Tests              runs on concrete input
-- The other modules below a module of this list hold theorems about the module they stand under
-- or, in Handler, about the functions that their first line names.
--
-- How code becomes definitions. A `&mut self` function takes the state and returns it; a `?` is the
-- bind of Outcome, which tells values, errors, panics and missing fuel apart. A HashMap is a list of
-- entries and a HashSet a list of keys: where the order of iteration matters, it is the order of
-- the list, which is any. Characters are code points, key codes and
-- times numbers; the one sum that could pass the width of a u16, the code of a disguised
-- event, wraps at 2 ^ 16. Debug output and sleeps that only wait are left out.
--
-- Bounds and fuel. The wait of the interpreter that has no timeout is not bounded by its input. It
-- runs on fuel, one unit a query of the window: fuel is enough where the window becomes active at
-- a query that it covers. The loops of the parser over the lines of a file share their iterator with
-- the loops over the blocks inside: each takes a line a turn, so they run on fuel too, of one unit
-- more than there are lines. The walk up the X11 window tree, which the server answers for, runs on
-- fuel of one unit a window. All other loops are structural; the polls of a device before its grab
-- are fifty, as in the code.
--
-- Other code. The answers of serde_yaml, toml, regex, evdev's table of names, the case tables of the
-- standard library, the display of a float, X11, Wayland, D-Bus, IPC and JSON, what devices and
-- watchers report, the virtual device, the clipboard
-- and the system calls of the dispatcher are parameters.
--
-- Not modelled: the derived deserialisers of Modmap, Keymap, Device and OnlyOrNot, which say nothing
-- of their own; the making of the watchers and the command line; the reconnection of the KDE
-- listener's thread; the clipboard program behind an expansion; src/util.rs, which only calls a
-- closure again until a time is over; the feature udev; the build script. An event of another type
-- than key or relative axis is opaque.
pub mod Prelude
pub mod Key
pub mod Event
pub mod World
pub mod Keyboard
pub mod Dispatcher
pub mod Hotstring
pub mod Ahk
pub mod Config
pub mod InputDevice
pub mod Handler
pub mod EventLoop
pub mod WmClient
pub mod Tests
