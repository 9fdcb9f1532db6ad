-- ===== src/Tests/Loading.antt =====
-- config/key.rs, key_press.rs and mod.rs on concrete names and files.
use ahk_wayland.Prelude.{
  ℕ, ◌-◌, ◌≡◌, refl, true, false, none, some, List, [], ◌∷◌, text, text_eq, map, leb, if◌then◌else◌,
}
use ahk_wayland.Key.{Key, key_a, key_2, key_capslock}
use ahk_wayland.Event.{negsuc, RelativeEvent}
use ahk_wayland.Handler.OnEvent.{disguised_key}
use ahk_wayland.Ahk.Types
use ahk_wayland.Ahk.Types.{AhkAction, AhkConfig, AhkHotkey}
use ahk_wayland.Ahk.Interpreter.{execute}
use ahk_wayland.Config.Types.{Modifier, Keymap, Config}
use ahk_wayland.Config.KeyNames.{KeyLibrary, parse_key, parse_key_press}
use ahk_wayland.Config.KeyNames.Joined.{with_dashes, parse_key_press-with_dashes}
use ahk_wayland.Config.KeyNames.Disguised.{parse_key-disguised}
use ahk_wayland.Config.Shell.{ShellLibrary}
use ahk_wayland.Config.Convert.{convert_actions, convert_ahk_hotkey_to_keymap, keymap_with}
use ahk_wayland.Config.Convert.Agreement.{dispatch_converted, convert_actions-dispatch}
use ahk_wayland.Config.Load.{
  File, Libraries, new_config, has_filter, matcher_of, ahk_to_config, load_configs,
}
use ahk_wayland.Handler.State.{ok}
use ahk_wayland.Handler.Dispatch.{after_exec}
use ahk_wayland.Tests.Fixtures.{env, fresh, world}
use ahk_wayland.Tests.Parsing.{library, sample, a_is_b, caps_j_hotkey, sample-Entries}
use ahk_wayland.Config.Load.AhkFile.{in_order, load_configs-AhkFile}
use ahk_wayland.Config.Keymap.{entries_of, keymap_entries}
use ahk_wayland.Config.Types.{KeymapAction}

abbrev to_ascii_uppercase : ℕ → ℕ
to_ascii_uppercase c = if leb b'a' c then (if leb c b'z' then c - 32 else c) else c

-- A stand-in for `evdev`, with two keys.
abbrev key_library : KeyLibrary
key_library = record {
  to_uppercase = λ s. map to_ascii_uppercase s;
  from_str = λ s.
      if text_eq s (text "KEY_2")
      then some key_2
      else if text_eq s (text "KEY_A")
      then some key_a
      else none;
}

parse_key_press-with_dashes_example :
    parse_key_press key_library (with_dashes (text "Shift" ∷ text "a" ∷ []) (text "2"))
    ≡ some (record { key = key_2; modifiers = Modifier.shift ∷ Modifier.key key_a ∷ [] })
unfolding ahk_wayland.Config.KeyNames.parse_modifier parse_key
parse_key_press-with_dashes_example =
    parse_key_press-with_dashes key_library (text "Shift" ∷ text "a" ∷ [])
      (Modifier.shift ∷ Modifier.key key_a ∷ []) (text "2") key_2
      ((refl, (refl, (refl, (refl, (refl, tt))))), ((refl, tt), tt)) (refl, tt) (refl, (refl, tt))
      refl

abbrev scroll_down : RelativeEvent
scroll_down = record { code = 8; value = negsuc 0 }

parse_key-disguised_example :
    parse_key key_library (text "XDOWNSCROLL") ≡ some (disguised_key scroll_down)
parse_key-disguised_example =
    parse_key-disguised key_library scroll_down (text "XUPSCROLL", text "XDOWNSCROLL") refl
      (refl, refl, refl)

abbrev shell_library : ShellLibrary
shell_library = record { kde = false; seconds = λ ms. text "0.05" }

abbrev runs_and_sleeps : AhkAction
runs_and_sleeps = AhkAction.block (
    Types.AhkActions.cons (AhkAction.run (text "kate" ∷ []))
      (Types.AhkActions.cons (AhkAction.sleep 50) Types.AhkActions.nil))

convert_actions-dispatch_example :
    dispatch_converted env true key_a (convert_actions shell_library runs_and_sleeps) fresh
    ≡ after_exec (execute world [] 10 runs_and_sleeps 0) fresh
unfolding ahk_wayland.Config.Convert.Agreement.IsPlain
convert_actions-dispatch_example =
    convert_actions-dispatch env shell_library true key_a fresh runs_and_sleeps refl
      (λ e. (tt, (tt, tt)))

-- Windows by their title alone; no file of another format.
abbrev libraries : Libraries
libraries = record {
  parser = library;
  shell = shell_library;
  contexts = record {
    exe_of = λ s. none;
    title_of = λ s. if text_eq s (text "WinActive(\"Mail\")") then some (text "Mail") else none;
  };
  yaml = λ s. some (record new_config { keypress_delay_ms = 5 });
  toml = λ s. none;
}

abbrev yaml_file : File
yaml_file = record { extension = some (text "yml"); contents = some [] }

abbrev ahk_file : File
ahk_file = record { extension = some (text "AHK"); contents = some (text "; nothing\n") }

abbrev from_yaml : Config
from_yaml = record new_config { keypress_delay_ms = 5 }

abbrev from_ahk : Config
from_ahk = record new_config { virtual_modifiers = key_capslock ∷ [] }

abbrev sample_file : File
sample_file = record { extension = some (text "AHK"); contents = some sample }

abbrev keymap_of : AhkHotkey → Keymap
keymap_of h = keymap_with libraries.contexts h (KeymapAction.ahk_interpreted h.action ∷ [])

abbrev two_keymaps : List Keymap
two_keymaps = keymap_of a_is_b ∷ keymap_of caps_j_hotkey ∷ []

load_configs-AhkFile_example :
    (config : Config) × (load_configs libraries (sample_file ∷ []) ≡ ok config)
    × ((j : Key) → entries_of j config.keymap_table ≡ keymap_entries j (in_order two_keymaps))
    × (config.hotstring_matcher ≡ none)
    × (config.virtual_modifiers ≡ key_capslock ∷ [])
unfolding convert_ahk_hotkey_to_keymap ahk_wayland.Config.Load.get_file_ext
load_configs-AhkFile_example =
    load_configs-AhkFile libraries sample_file sample (a_is_b ∷ caps_j_hotkey ∷ []) [] two_keymaps
      refl refl sample-Entries (refl, (refl, tt))
