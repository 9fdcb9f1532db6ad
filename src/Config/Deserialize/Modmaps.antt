-- ===== src/Config/Deserialize/Modmaps.antt =====
-- config/modmap_action.rs, modmap.rs, keymap.rs, application.rs and mod.rs: the deserialisers of the
-- other entries.
use ahk_wayland.Prelude.{
  ◌≡◌, refl, Bool, false, Option, none, some, List, [], ◌∷◌, Text, text, map_get,
}
use ahk_wayland.Key.{Key}
use ahk_wayland.Config.Types.{
  KeyPress, KeymapAction, Keys, one_key, many_keys, MultiPurposeKey, PressReleaseKey, ModmapAction,
  keys, multi_purpose_key, press_release_key, to_list, remap_entries, ApplicationMatcher,
}
use ahk_wayland.Config.KeyNames.{KeyLibrary}
use ahk_wayland.Config.Application.{from_str}
use ahk_wayland.Config.Deserialize.{
  Value, table, Fields, no_fields, field, ◌>>=◌, or_else, as_texts, as_bool, as_number, get_field,
  deserialize_key, all_keys, deserialize_actions, remaps, deserialize_string_or_vec,
}

-- A field with no default, and one with a default.
abbrev pub required : {A : Type 0} → (Value → Option A) → Option Value → Option A
required read none = none
required read (some v) = read v

abbrev pub or_default : {A : Type 0} → A → (Value → Option A) → Option Value → Option A
or_default d read none = some d
or_default d read (some v) = read v

abbrev pub all_matchers : (Text → Bool) → List Text → Option (List ApplicationMatcher)
all_matchers is_regex [] = some []
all_matchers is_regex (s ∷ ss) = do
  m ← from_str is_regex s
  ms ← all_matchers is_regex ss
  some (m ∷ ms)

abbrev pub matchers_of :
    (Text → Bool) → Option (List Text) → Option (Option (List ApplicationMatcher))
matchers_of is_regex none = some none
matchers_of is_regex (some ss) = do ms ← all_matchers is_regex ss; some (some ms)

unfoldable pub deserialize_matchers :
    (Text → Bool) → Option Value → Option (Option (List ApplicationMatcher))
unfolding deserialize_string_or_vec from_str
deserialize_matchers is_regex v = do ss ← deserialize_string_or_vec v; matchers_of is_regex ss

-- An entry of a `HashMap` of keys: a later one of the same key takes its place.
unfoldable pub put_action :
    Key → ModmapAction → List (Key × ModmapAction) → List (Key × ModmapAction)
put_action k action more = elim (map_get k more) [ none ↦ (k, action) ∷ more | some later ↦ more ]

module _ (lib : KeyLibrary) where
  -- `deserialize_virtual_modifiers`
  unfoldable pub deserialize_virtual_modifiers : Value → Option (List Key)
  deserialize_virtual_modifiers v = do names ← as_texts v; all_keys lib names

  abbrev one : Option Key → Option Keys
  one none = none
  one (some k) = some (one_key k)

  abbrev many : Option (List Key) → Option Keys
  many none = none
  many (some ks) = some (many_keys ks)

  unfoldable pub deserialize_keys : Value → Option Keys
  unfolding deserialize_key deserialize_virtual_modifiers
  deserialize_keys v =
      or_else (one (deserialize_key lib v)) (many (deserialize_virtual_modifiers v))

  -- The fields of `MultiPurposeKey`, with their defaults.
  unfoldable pub deserialize_multi_purpose : Fields → Option MultiPurposeKey
  unfolding deserialize_keys
  deserialize_multi_purpose fs = do
    held ← required deserialize_keys (get_field (text "held") fs)
    alone ← required deserialize_keys (get_field (text "alone") fs)
    timeout ← or_default 1000 as_number (get_field (text "alone_timeout_millis") fs)
    free_hold ← or_default false as_bool (get_field (text "free_hold") fs)
    some (record { held = held; alone = alone; alone_timeout = timeout; free_hold = free_hold })

  -- `deserialize_actions` of modmap_action.rs
  abbrev listed_actions : Value → Option (List KeymapAction)
  listed_actions v = do actions ← deserialize_actions lib v; some (to_list actions)

  unfoldable pub deserialize_press_release : Fields → Option PressReleaseKey
  unfolding deserialize_actions
  deserialize_press_release fs = do
    skip ← or_default false as_bool (get_field (text "skip_key_event") fs)
    press ← or_default [] listed_actions (get_field (text "press") fs)
    repeat ← or_default [] listed_actions (get_field (text "repeat") fs)
    release ← or_default [] listed_actions (get_field (text "release") fs)
    some (record { skip_key_event = skip; press = press; repeat = repeat; release = release })

  abbrev as_keys : Option Keys → Option ModmapAction
  as_keys none = none
  as_keys (some ks) = some (keys ks)

  abbrev as_multi_purpose : Option MultiPurposeKey → Option ModmapAction
  as_multi_purpose none = none
  as_multi_purpose (some m) = some (multi_purpose_key m)

  abbrev as_press_release : Option PressReleaseKey → Option ModmapAction
  as_press_release none = none
  as_press_release (some p) = some (press_release_key p)

  -- `ModmapAction::deserialize`
  unfoldable pub deserialize_modmap_action : Value → Option ModmapAction
  unfolding deserialize_keys deserialize_multi_purpose deserialize_press_release
  deserialize_modmap_action (table fs) =
      or_else (as_multi_purpose (deserialize_multi_purpose fs))
        (as_press_release (deserialize_press_release fs))
  deserialize_modmap_action v = as_keys (deserialize_keys v)

  -- `deserialize_remap` of modmap.rs
  unfoldable pub deserialize_modmap_fields : Fields → Option (List (Key × ModmapAction))
  unfolding deserialize_modmap_action deserialize_key put_action
  deserialize_modmap_fields no_fields = some []
  deserialize_modmap_fields (field k v rest) = do
    key ← deserialize_key lib k
    action ← deserialize_modmap_action v
    more ← deserialize_modmap_fields rest
    some (put_action key action more)

  -- `deserialize_remap` of keymap.rs
  unfoldable pub deserialize_keymap_remap : Value → Option (List (KeyPress × List KeymapAction))
  unfolding remaps
  deserialize_keymap_remap v = do entries ← remaps lib v; some (remap_entries entries)

  -- A map with none of the fields of a PressReleaseKey and no `held` is read without an error, as a key
  -- that only passes its event on, whatever other keys the map has.
  deserialize_modmap_action-unknown :
      (fs : Fields)
      → get_field (text "held") fs ≡ none
      → get_field (text "skip_key_event") fs ≡ none
      → get_field (text "press") fs ≡ none
      → get_field (text "repeat") fs ≡ none
      → get_field (text "release") fs ≡ none
      → deserialize_modmap_action (table fs)
        ≡ some (
            press_release_key
              (record { skip_key_event = false; press = []; repeat = []; release = [] }))
  unfolding deserialize_modmap_action deserialize_multi_purpose deserialize_press_release
  deserialize_modmap_action-unknown fs held skip press repeat release =
      rw (held, skip, press, repeat, release) refl
