-- ===== src/Handler/Modifiers.antt =====
-- event_handler.rs: which modifiers are held, which a key press wants, and how the difference is
-- made up for while one key is tapped.
pub mod Tap
pub mod Chord
use ahk_wayland.Prelude.{
  ℕ, Bool, true, false, not, ◌&&◌, ◌||◌, Option, none, some, List, [], ◌∷◌, ◌++◌, map, ◌==◌,
  is_empty, all, contains, set_insert, set_remove, retain, if◌then◌else◌,
}
use ahk_wayland.Key.{
  Key, key_leftshift, key_rightshift, key_leftctrl, key_rightctrl, key_leftalt, key_rightalt,
  key_leftmeta, key_rightmeta, is_modifier_key,
}
use ahk_wayland.Event.{KeyValue, press, release, repeat, delay}
use ahk_wayland.Config.Types.{
  Modifier, shift, control, alt, windows, key, KeyPress, KeymapAction, remap, set_extra_modifiers,
}
use ahk_wayland.Handler.State.{EventHandler, send_action, send_key, send_keys}

unfoldable pub update_modifier : Key → KeyValue → EventHandler → EventHandler
update_modifier k press s = record s { modifiers = set_insert k s.modifiers }
update_modifier k release s = record s { modifiers = set_remove k s.modifiers }
update_modifier k repeat s = s

-- `contains_modifier` for one modifier: whether the key is one that the modifier stands for.
unfoldable pub stands_for : Modifier → Key → Bool
stands_for shift k = k == key_leftshift || k == key_rightshift
stands_for control k = k == key_leftctrl || k == key_rightctrl
stands_for alt k = k == key_leftalt || k == key_rightalt
stands_for windows k = k == key_leftmeta || k == key_rightmeta
stands_for (key j) k = k == j

unfoldable pub contains_modifier : List Modifier → Key → Bool
contains_modifier [] k = false
contains_modifier (m ∷ ms) k = stands_for m k || contains_modifier ms k

unfoldable pub match_modifier : List Key → Modifier → Bool
match_modifier held shift = contains held key_leftshift || contains held key_rightshift
match_modifier held control = contains held key_leftctrl || contains held key_rightctrl
match_modifier held alt = contains held key_leftalt || contains held key_rightalt
match_modifier held windows = contains held key_leftmeta || contains held key_rightmeta
match_modifier held (key k) = contains held k

-- The key that is pressed for a modifier that is missing.
unfoldable pub key_of : Modifier → Key
key_of shift = key_leftshift
key_of control = key_leftctrl
key_of alt = key_leftalt
key_of windows = key_leftmeta
key_of (key k) = k

unfoldable pub extra_modifiers : List Key → List Modifier → List Key
extra_modifiers held wanted = retain (λ k. not (contains_modifier wanted k)) held

unfoldable pub missing_modifiers : List Key → List Modifier → List Key
missing_modifiers held [] = []
missing_modifiers held (m ∷ ms) =
    let rest = missing_modifiers held ms in if match_modifier held m then rest else key_of m ∷ rest

unfoldable pub diff_modifiers : EventHandler → List Modifier → List Key × List Key
diff_modifiers s wanted = (extra_modifiers s.modifiers wanted, missing_modifiers s.modifiers wanted)

-- The rest of `send_key_press_and_release`, with the modifiers to release and to press.
unfoldable pub tap_with : List Key → List Key → Key → EventHandler → EventHandler
tap_with extra missing k s =
    let s1 = send_keys extra release (send_keys missing press s) in
    let s2 = send_key k release (send_key k press s1) in
    let s3 = send_keys extra press (send_action (delay s.keypress_delay) s2) in
    send_keys missing release (send_action (delay s.keypress_delay) s3)

unfoldable pub send_key_press_and_release : KeyPress → EventHandler → EventHandler
unfolding diff_modifiers tap_with
send_key_press_and_release p s =
    let (extra, missing) = diff_modifiers s p.modifiers in
    tap_with (retain (λ k. is_modifier_key k && not (contains s.extra_modifiers k)) extra)
      (retain is_modifier_key missing) p.key s

unfoldable pub with_mark : KeyPress → EventHandler → KeyPress
with_mark p s =
    if s.mark_set && not (match_modifier s.modifiers shift)
    then record p { modifiers = p.modifiers ++ shift ∷ [] }
    else p

pub record TaggedAction : Type 0 where
  pub action : KeymapAction
  pub exact_match : Bool

abbrev pub is_remap_action : KeymapAction → Bool
is_remap_action (remap r t k) = true
is_remap_action _ = false

unfoldable pub is_remap : List KeymapAction → Bool
is_remap xs = if is_empty xs then false else all is_remap_action xs

abbrev pub tag : Bool → KeymapAction → TaggedAction
tag exact_match a = record { action = a; exact_match = exact_match }

abbrev pub set_extra : List Key → Bool → List Key → List TaggedAction
set_extra extra exact_match ks =
    if not (is_empty extra) then tag exact_match (set_extra_modifiers ks) ∷ [] else []

unfoldable pub with_extra_modifiers : List KeymapAction → List Key → Bool → List TaggedAction
with_extra_modifiers xs extra exact_match =
    set_extra extra exact_match extra
    ++ (map (tag exact_match) xs ++ set_extra extra exact_match [])
