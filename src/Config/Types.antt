-- ===== src/Config/Types.antt =====
-- config/key_press.rs, keymap_action.rs, remap.rs, modmap_action.rs, modmap.rs, keymap.rs,
-- application.rs and device.rs: the data of a configuration. A `Duration` is a number of
-- milliseconds, and a `HashMap` the list of its entries in the order of its iteration.
use ahk_wayland.Prelude.{ℕ, Bool, true, false, ◌&&◌, ◌==◌, Option, List, [], ◌∷◌, Text}
use ahk_wayland.Key.{Key}
use ahk_wayland.Hotstring.{HotstringMatch}
use ahk_wayland.Ahk.Types.{AhkAction}

pub data Modifier : Type 0 where
  shift control alt windows : Modifier
  key : Key → Modifier

pub record KeyPress : Type 0 where
  pub key : Key
  pub modifiers : List Modifier

-- The derived equality of key presses.
abbrev pub modifier_eq : Modifier → Modifier → Bool
modifier_eq shift shift = true
modifier_eq control control = true
modifier_eq alt alt = true
modifier_eq windows windows = true
modifier_eq (key j) (key k) = j == k
modifier_eq _ _ = false

abbrev pub modifiers_eq : List Modifier → List Modifier → Bool
modifiers_eq [] [] = true
modifiers_eq (m ∷ ms) (n ∷ ns) = modifier_eq m n && modifiers_eq ms ns
modifiers_eq _ _ = false

unfoldable pub key_press_eq : KeyPress → KeyPress → Bool
key_press_eq p q = p.key == q.key && modifiers_eq p.modifiers q.modifiers

mutual
  pub data KeymapAction : Type 0 where
    key_press_and_release : KeyPress → KeymapAction
    key_press : Key → KeymapAction
    key_repeat : Key → KeymapAction
    key_release : Key → KeymapAction
    remap : Remaps → Option ℕ → Option (List Key) → KeymapAction
    launch : List Text → KeymapAction
    set_mode : Text → KeymapAction
    set_mark : Bool → KeymapAction
    with_mark : KeyPress → KeymapAction
    escape_next_key : Bool → KeymapAction
    sleep : ℕ → KeymapAction
    set_extra_modifiers : List Key → KeymapAction
    ahk_interpreted : AhkAction → KeymapAction

  pub data KeymapActions : Type 0 where
    nil : KeymapActions
    cons : KeymapAction → KeymapActions → KeymapActions

  -- The entries of `HashMap<KeyPress, Vec<KeymapAction>>`.
  pub data Remaps : Type 0 where
    end : Remaps
    entry : KeyPress → KeymapActions → Remaps → Remaps

abbrev pub to_list : KeymapActions → List KeymapAction
to_list nil = []
to_list (cons a xs) = a ∷ to_list xs

abbrev pub remap_entries : Remaps → List (KeyPress × List KeymapAction)
remap_entries end = []
remap_entries (entry k xs rest) = (k, to_list xs) ∷ remap_entries rest

-- A `Regex` is its pattern.
pub data ApplicationMatcher : Type 0 where
  literal : Text → ApplicationMatcher
  name : Text → ApplicationMatcher
  regex : Text → ApplicationMatcher

pub record OnlyOrNot : Type 0 where
  pub only : Option (List ApplicationMatcher)
  pub not : Option (List ApplicationMatcher)

pub record Device : Type 0 where
  pub only : Option (List Text)
  pub not : Option (List Text)

pub data Keys : Type 0 where
  one_key : Key → Keys
  many_keys : List Key → Keys

unfoldable pub into_vec : Keys → List Key
into_vec (one_key k) = k ∷ []
into_vec (many_keys ks) = ks

pub record MultiPurposeKey : Type 0 where
  pub held : Keys
  pub alone : Keys
  pub alone_timeout : ℕ
  pub free_hold : Bool

pub record PressReleaseKey : Type 0 where
  pub skip_key_event : Bool
  pub press : List KeymapAction
  pub repeat : List KeymapAction
  pub release : List KeymapAction

pub data ModmapAction : Type 0 where
  keys : Keys → ModmapAction
  multi_purpose_key : MultiPurposeKey → ModmapAction
  press_release_key : PressReleaseKey → ModmapAction

pub record Modmap : Type 0 where
  pub remap : List (Key × ModmapAction)
  pub application : Option OnlyOrNot
  pub window : Option OnlyOrNot
  pub device : Option Device
  pub mode : Option (List Text)

pub record Keymap : Type 0 where
  pub remap : List (KeyPress × List KeymapAction)
  pub application : Option OnlyOrNot
  pub window : Option OnlyOrNot
  pub device : Option Device
  pub mode : Option (List Text)
  pub exact_match : Bool

pub record KeymapEntry : Type 0 where
  pub actions : List KeymapAction
  pub modifiers : List Modifier
  pub application : Option OnlyOrNot
  pub title : Option OnlyOrNot
  pub device : Option Device
  pub mode : Option (List Text)
  pub exact_match : Bool

pub record OverrideEntry : Type 0 where
  pub actions : List KeymapAction
  pub modifiers : List Modifier
  pub exact_match : Bool

-- `Config` but for `shared`, which holds nothing, and `modify_time`, which the watcher of files reads.
-- The matcher is its list of hotstrings.
pub record Config : Type 0 where
  pub modmap : List Modmap
  pub keymap : List Keymap
  pub default_mode : Text
  pub virtual_modifiers : List Key
  pub keypress_delay_ms : ℕ
  pub keymap_table : List (Key × List KeymapEntry)
  pub enable_wheel : Bool
  pub hotstrings : List HotstringMatch
  pub hotstring_matcher : Option (List HotstringMatch)
