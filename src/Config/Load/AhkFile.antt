-- ===== src/Config/Load/AhkFile.antt =====
-- config/mod.rs, load_configs: from the text of an AutoHotkey file to the tables of the event handler.
use ahk_wayland.Prelude.{◌≡◌, refl, not, none, some, List, [], ◌∷◌, ◌++◌, Text, retain, lines}
use ahk_wayland.Key.{Key, key_capslock}
use ahk_wayland.Ahk.Types.{AhkHotkey, AhkHotstring}
use ahk_wayland.Ahk.FileParser.Read.{Entries, parse_file-Entries}
use ahk_wayland.Ahk.Transpiler.{extract_hotstrings, matches_from}
use ahk_wayland.Config.Types.{Config, Keymap}
use ahk_wayland.Config.Keymap.{
  entries_of, keymap_entries, build_keymap_table, build_keymap_table-entries,
}
use ahk_wayland.Config.Load.{
  File, Libraries, ahk_file, get_file_ext, new_config, has_filter, matcher_of, read_config,
  load_configs,
}
use ahk_wayland.Config.Load.Merged.{AreConverted, ahk_to_config-order}
use ahk_wayland.Handler.State.{ok}

-- The keymaps of a file: those with an application or a window first.
abbrev pub in_order : List Keymap → List Keymap
in_order ms = retain has_filter ms ++ retain (λ m. not (has_filter m)) ms

abbrev loaded : List Keymap → List AhkHotstring → Config
loaded ms ss = record new_config {
  virtual_modifiers = key_capslock ∷ [];
  keymap = in_order ms;
  hotstrings = matches_from 0 ss;
  hotstring_matcher = matcher_of (matches_from 0 ss);
}

read_ahk :
    (lib : Libraries) (file : File) (content : Text) (hs : List AhkHotkey) (ss : List AhkHotstring)
    (ms : List Keymap)
    → file.contents ≡ some content
    → get_file_ext lib.parser.to_lowercase file ≡ ahk_file
    → Entries lib.parser none (lines content) hs ss
    → AreConverted lib hs ms
    → read_config lib file ≡ ok (loaded ms ss)
unfolding read_config extract_hotstrings
read_ahk lib file content hs ss ms has_contents is_ahk entries converted =
    rw (has_contents, is_ahk, parse_file-Entries lib.parser content hs ss entries)
      (ahk_to_config-order lib (record { hotkeys = hs; hotstrings = ss }) ms converted)

-- One AutoHotkey file of the parser's grammar, whose hotkeys are converted without a panic, is loaded.
-- The table that the handler searches then has, for each key, the entries of the file's hotkeys on
-- that key: those for an application or a window before the others, each in the order of the file.
-- Its matcher has all hotstrings of the file, and CapsLock is a virtual modifier.
pub load_configs-AhkFile :
    (lib : Libraries) (file : File) (content : Text) (hs : List AhkHotkey) (ss : List AhkHotstring)
    (ms : List Keymap)
    → file.contents ≡ some content
    → get_file_ext lib.parser.to_lowercase file ≡ ahk_file
    → Entries lib.parser none (lines content) hs ss
    → AreConverted lib hs ms
    → (config : Config) × (load_configs lib (file ∷ []) ≡ ok config)
      × ((j : Key) → entries_of j config.keymap_table ≡ keymap_entries j (in_order ms))
      × (config.hotstring_matcher ≡ matcher_of (matches_from 0 ss))
      × (config.virtual_modifiers ≡ key_capslock ∷ [])
unfolding load_configs
load_configs-AhkFile lib file content hs ss ms has_contents is_ahk entries converted = (
  record (loaded ms ss) { keymap_table = build_keymap_table (in_order ms) },
  rw (read_ahk lib file content hs ss ms has_contents is_ahk entries converted) refl,
  λ j. build_keymap_table-entries (in_order ms) j,
  refl,
  refl,
)
