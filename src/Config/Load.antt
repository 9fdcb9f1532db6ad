-- ===== src/Config/Load.antt =====
-- config/mod.rs, load_configs: the files of a configuration, read and merged into one.
pub mod Merged
pub mod AhkFile
use ahk_wayland.Prelude.{
  ℕ, Bool, true, false, ◌||◌, Option, none, some, List, [], ◌∷◌, ◌++◌, Text, text, text_eq,
  is_empty, is_some, if◌then◌else◌,
}
use ahk_wayland.Key.{key_capslock}
use ahk_wayland.Hotstring.{HotstringMatch}
use ahk_wayland.Ahk.Types.{AhkHotkey, AhkConfig}
use ahk_wayland.Ahk.Parsed
use ahk_wayland.Ahk.Parsed.{Parsed}
use ahk_wayland.Ahk.FileParser.{Library, parse_file}
use ahk_wayland.Ahk.Transpiler.{extract_hotstrings}
use ahk_wayland.Config.Types.{Config, Keymap}
use ahk_wayland.Config.Keymap.{build_keymap_table}
use ahk_wayland.Config.Shell.{ShellLibrary}
use ahk_wayland.Config.Convert.{ContextLibrary, convert_ahk_hotkey_to_keymap}
use ahk_wayland.Handler.State.{Outcome, ok, err, panic, out_of_fuel, ◌>>=◌}

-- A path's extension (empty where it is no UTF-8), and what is read from it: none if it cannot be
-- read. Both reads of an AutoHotkey file see the same text.
pub record File : Type 0 where
  pub extension : Option Text
  pub contents : Option Text

-- The other code: the regex crate, the shell's numbers, `serde_yaml` and `toml`.
pub record Libraries : Type 0 where
  pub parser : Library
  pub shell : ShellLibrary
  pub contexts : ContextLibrary
  pub yaml : Text → Option Config
  pub toml : Text → Option Config

pub data ConfigFiletype : Type 0 where
  yaml_file toml_file ahk_file : ConfigFiletype

abbrev pub file_type : Text → ConfigFiletype
file_type ext =
    if text_eq ext (text "toml")
    then toml_file
    else if text_eq ext (text "ahk")
    then ahk_file
    else yaml_file

unfoldable pub get_file_ext : (Text → Text) → File → ConfigFiletype
get_file_ext to_lowercase file = elim file.extension [
  | some f ↦ file_type (to_lowercase f)
  | none ↦ yaml_file
]

-- `Config::new`
abbrev pub new_config : Config
new_config = record {
  modmap = [];
  keymap = [];
  default_mode = text "default";
  virtual_modifiers = [];
  keypress_delay_ms = 0;
  keymap_table = [];
  enable_wheel = true;
  hotstrings = [];
  hotstring_matcher = none;
}

abbrev pub has_filter : Keymap → Bool
has_filter keymap = is_some keymap.window || is_some keymap.application

-- `context_hotkeys` and `global_hotkeys`
abbrev pub Split : Type 0
Split = List Keymap × List Keymap

abbrev pub push_keymap : Keymap → Split → Split
push_keymap keymap (contexts, globals) =
    if has_filter keymap
    then (contexts ++ keymap ∷ [], globals)
    else (contexts, globals ++ keymap ∷ [])

abbrev pub ok_or_panic {ℓ} : {A : Type ℓ} → Option A → Outcome A
ok_or_panic none = panic
ok_or_panic (some a) = ok a

-- The loop over the hotkeys.
unfoldable pub split_hotkeys : Libraries → List AhkHotkey → Split → Outcome Split
unfolding convert_ahk_hotkey_to_keymap
split_hotkeys lib [] split = ok split
split_hotkeys lib (hotkey ∷ rest) split = do
  keymap ← ok_or_panic (convert_ahk_hotkey_to_keymap lib.shell lib.contexts hotkey)
  split_hotkeys lib rest (push_keymap keymap split)

abbrev pub matcher_of : List HotstringMatch → Option (List HotstringMatch)
matcher_of hotstrings = if is_empty hotstrings then none else some hotstrings

-- The configuration of an AutoHotkey file, the first one or a further one.
unfoldable pub ahk_to_config : Libraries → AhkConfig → Outcome Config
unfolding split_hotkeys extract_hotstrings
ahk_to_config lib ahk = do
  split ← split_hotkeys lib ahk.hotkeys ([], [])
  ok (record new_config {
    virtual_modifiers = key_capslock ∷ [];
    keymap = split.0 ++ split.1;
    hotstrings = extract_hotstrings ahk;
    hotstring_matcher = matcher_of (extract_hotstrings ahk);
  })

abbrev pub from_parsed {ℓ} : {A : Type ℓ} → Parsed A → Outcome A
from_parsed (Parsed.ok a) = ok a
from_parsed Parsed.err = err
from_parsed Parsed.out_of_fuel = out_of_fuel

abbrev pub or_error {ℓ} : {A : Type ℓ} → Option A → Outcome A
or_error none = err
or_error (some a) = ok a

abbrev pub deserialize : Libraries → ConfigFiletype → Text → Outcome Config
deserialize lib yaml_file contents = or_error (lib.yaml contents)
deserialize lib toml_file contents = or_error (lib.toml contents)
deserialize lib ahk_file contents = do
  ahk ← from_parsed (parse_file lib.parser contents)
  ahk_to_config lib ahk

unfoldable pub read_config : Libraries → File → Outcome Config
unfolding get_file_ext parse_file ahk_to_config
read_config lib file = do
  contents ← or_error file.contents
  deserialize lib (get_file_ext lib.parser.to_lowercase file) contents

-- A further file adds to four fields.
unfoldable pub merge : Config → Config → Config
merge config c = record config {
  modmap = config.modmap ++ c.modmap;
  keymap = config.keymap ++ c.keymap;
  virtual_modifiers = config.virtual_modifiers ++ c.virtual_modifiers;
  hotstrings = config.hotstrings ++ c.hotstrings;
}

unfoldable pub merge_files : Libraries → List File → Config → Outcome Config
unfolding read_config merge
merge_files lib [] config = ok config
merge_files lib (file ∷ files) config = do
  c ← read_config lib file
  merge_files lib files (merge config c)

-- `filenames[0]` of no files is a panic.
unfoldable pub load_configs : Libraries → List File → Outcome Config
unfolding read_config merge_files
load_configs lib [] = panic
load_configs lib (file ∷ files) = do
  first ← read_config lib file
  config ← merge_files lib files first
  ok (record config { keymap_table = build_keymap_table config.keymap })
