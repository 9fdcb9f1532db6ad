-- ===== src/Config/KeyNames.antt =====
-- config/key.rs and the parsers of config/key_press.rs: keys and key presses by their names. An error
-- is a message, which is left out.
pub mod Joined
pub mod Disguised
use ahk_wayland.Prelude.{
  ℕ, ◌+◌, Bool, true, false, Option, none, some, List, [], ◌∷◌, ◌++◌, Text, text, text_eq, ◌==◌,
  split, if◌then◌else◌,
}
use ahk_wayland.Key.{
  Key, key_reserved, disguised_event_offsetter, key_leftalt, key_leftctrl, key_leftmeta,
  key_leftshift, key_match_any, key_rightalt, key_rightctrl, key_rightmeta, key_rightshift,
}
use ahk_wayland.Config.Types
use ahk_wayland.Config.Types.{Modifier, shift, control, alt, windows, KeyPress}
use ahk_wayland.Ahk.SendParser.{lookup_name}

-- `str::to_uppercase` of the standard library, and `KeyCode::from_str` of the crate `evdev`.
pub record KeyLibrary : Type 0 where
  pub to_uppercase : Text → Text
  pub from_str : Text → Option Key

-- xremap's aliases, and the names of the disguised relative events.
abbrev pub key_aliases : List (Text × Key)
key_aliases =
    (text "SHIFT_R", key_rightshift)
    ∷ (text "SHIFT_L", key_leftshift)
    ∷ (text "S_R", key_rightshift)
    ∷ (text "S_L", key_leftshift)
    ∷ (text "CONTROL_R", key_rightctrl)
    ∷ (text "CONTROL_L", key_leftctrl)
    ∷ (text "CTRL_R", key_rightctrl)
    ∷ (text "CTRL_L", key_leftctrl)
    ∷ (text "C_R", key_rightctrl)
    ∷ (text "C_L", key_leftctrl)
    ∷ (text "ALT_R", key_rightalt)
    ∷ (text "ALT_L", key_leftalt)
    ∷ (text "A_R", key_rightalt)
    ∷ (text "A_L", key_leftalt)
    ∷ (text "M_R", key_rightalt)
    ∷ (text "M_L", key_leftalt)
    ∷ (text "SUPER_R", key_rightmeta)
    ∷ (text "SUPER_L", key_leftmeta)
    ∷ (text "WIN_R", key_rightmeta)
    ∷ (text "WIN_L", key_leftmeta)
    ∷ (text "W_R", key_rightmeta)
    ∷ (text "W_L", key_leftmeta)
    ∷ (text "XRIGHTCURSOR", disguised_event_offsetter)
    ∷ (text "XLEFTCURSOR", disguised_event_offsetter + 1)
    ∷ (text "XDOWNCURSOR", disguised_event_offsetter + 2)
    ∷ (text "XUPCURSOR", disguised_event_offsetter + 3)
    ∷ (text "XREL_Z_AXIS_1", disguised_event_offsetter + 4)
    ∷ (text "XREL_Z_AXIS_2", disguised_event_offsetter + 5)
    ∷ (text "XREL_RX_AXIS_1", disguised_event_offsetter + 6)
    ∷ (text "XREL_RX_AXIS_2", disguised_event_offsetter + 7)
    ∷ (text "XREL_RY_AXIS_1", disguised_event_offsetter + 8)
    ∷ (text "XREL_RY_AXIS_2", disguised_event_offsetter + 9)
    ∷ (text "XREL_RZ_AXIS_1", disguised_event_offsetter + 10)
    ∷ (text "XREL_RZ_AXIS_2", disguised_event_offsetter + 11)
    ∷ (text "XRIGHTSCROLL", disguised_event_offsetter + 12)
    ∷ (text "XLEFTSCROLL", disguised_event_offsetter + 13)
    ∷ (text "XREL_DIAL_1", disguised_event_offsetter + 14)
    ∷ (text "XREL_DIAL_2", disguised_event_offsetter + 15)
    ∷ (text "XUPSCROLL", disguised_event_offsetter + 16)
    ∷ (text "XDOWNSCROLL", disguised_event_offsetter + 17)
    ∷ (text "XREL_MISC_1", disguised_event_offsetter + 18)
    ∷ (text "XREL_MISC_2", disguised_event_offsetter + 19)
    ∷ (text "XREL_RESERVED_1", disguised_event_offsetter + 20)
    ∷ (text "XREL_RESERVED_2", disguised_event_offsetter + 21)
    ∷ (text "XHIRES_UPSCROLL", disguised_event_offsetter + 22)
    ∷ (text "XHIRES_DOWNSCROLL", disguised_event_offsetter + 23)
    ∷ (text "XHIRES_RIGHTSCROLL", disguised_event_offsetter + 24)
    ∷ (text "XHIRES_LEFTSCROLL", disguised_event_offsetter + 25)
    ∷ (text "ANY", key_match_any)
    ∷ []

-- `_ => Key::KEY_RESERVED`
abbrev pub or_reserved : Option Key → Key
or_reserved none = key_reserved
or_reserved (some k) = k

abbrev pub unless_reserved : Key → Option Key
unless_reserved k = if k == key_reserved then none else some k

abbrev pub or_later : Option Key → Option Key → Option Key
or_later none later = later
or_later (some k) later = some k

unfoldable pub parse_key : KeyLibrary → Text → Option Key
parse_key lib input =
    let name = lib.to_uppercase input in
    or_later (lib.from_str name) (
      or_later (lib.from_str (text "KEY_" ++ name))
        (unless_reserved (or_reserved (lookup_name name key_aliases))))

-- The arms of `parse_modifier`.
abbrev pub modifier_names : List (Text × Modifier)
modifier_names =
    (text "SHIFT", shift)
    ∷ (text "C", control)
    ∷ (text "CTRL", control)
    ∷ (text "CONTROL", control)
    ∷ (text "M", alt)
    ∷ (text "ALT", alt)
    ∷ (text "SUPER", windows)
    ∷ (text "WIN", windows)
    ∷ (text "WINDOWS", windows)
    ∷ []

abbrev pub lookup_modifier : Text → List (Text × Modifier) → Option Modifier
lookup_modifier name [] = none
lookup_modifier name ((n, m) ∷ rest) = if text_eq n name then some m else lookup_modifier name rest

abbrev pub key_modifier : Option Key → Option Modifier
key_modifier none = none
key_modifier (some k) = some (Modifier.key k)

abbrev pub or_key_modifier : Option Modifier → Option Key → Option Modifier
or_key_modifier none k = key_modifier k
or_key_modifier (some m) k = some m

unfoldable pub parse_modifier : KeyLibrary → Text → Option Modifier
unfolding parse_key
parse_modifier lib modifier =
    let name = lib.to_uppercase modifier in
    or_key_modifier (lookup_modifier name modifier_names) (parse_key lib name)

infixl 5 ◌>>=◌
abbrev ◌>>=◌ {ℓ κ} : {A : Type ℓ} {B : Type κ} → Option A → (A → Option B) → Option B
none >>= f = none
some a >>= f = f a

-- `split_last`, and the modifiers in their order, up to the first that is not known; then the key.
unfoldable pub parse_parts : KeyLibrary → List Text → Option KeyPress
unfolding parse_modifier
parse_parts lib [] = none
parse_parts lib (key ∷ []) = do k ← parse_key lib key; some (record { key = k; modifiers = [] })
parse_parts lib (part ∷ next ∷ rest) = do
  m ← parse_modifier lib part
  p ← parse_parts lib (next ∷ rest)
  some (record { key = p.key; modifiers = m ∷ p.modifiers })

unfoldable pub parse_key_press : KeyLibrary → Text → Option KeyPress
unfolding parse_parts
parse_key_press lib input = parse_parts lib (split b'-' input)
