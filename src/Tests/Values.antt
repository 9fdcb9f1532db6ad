-- ===== src/Tests/Values.antt =====
-- config/keymap_action.rs on the value of `{remap: {a: {launch: [ls, -l]}, b: null}, timeout_millis: 200}`.
use ahk_wayland.Prelude.{◌≡◌, refl, none, some, List, [], ◌∷◌, Text, text, text_eq, if◌then◌else◌}
use ahk_wayland.Key.{Key, key_a, key_b}
use ahk_wayland.Config.Types.{KeyPress, remap, launch, nil, cons, Remaps, end, entry}
use ahk_wayland.Config.KeyNames.{KeyLibrary, parse_key_press}
use ahk_wayland.Config.Deserialize.{
  null, string, list, Fields, no_fields, field, deserialize_action,
}
use ahk_wayland.Config.Deserialize.Grammar.{
  under_tag, texts, remap_value, launched, remapped, AreRemaps, no_remaps, one_more, no_action,
  one_action, deserialize_action-IsAction,
}

abbrev library : KeyLibrary
library = record {
  to_uppercase = λ s. s;
  from_str = λ s.
      if text_eq s (text "a")
      then some key_a
      else if text_eq s (text "b")
      then some key_b
      else none;
}

abbrev plain : Key → KeyPress
plain k = record { key = k; modifiers = [] }

a-parse_key_press : parse_key_press library (text "a") ≡ some (plain key_a)
unfolding parse_key_press
a-parse_key_press = refl

b-parse_key_press : parse_key_press library (text "b") ≡ some (plain key_b)
unfolding parse_key_press
b-parse_key_press = refl

abbrev words : List Text
words = text "ls" ∷ text "-l" ∷ []

abbrev fields : Fields
fields =
    field (string (text "a")) (under_tag (text "launch") (list (texts words)))
      (field (string (text "b")) null no_fields)

abbrev entries : Remaps
entries = entry (plain key_a) (cons (launch words) nil) (entry (plain key_b) nil end)

fields-AreRemaps : AreRemaps library fields entries
unfolding ahk_wayland.Config.Deserialize.put_entry ahk_wayland.Config.Types.key_press_eq
fields-AreRemaps =
    one_more (text "a") (plain key_a) _ _ _ _ a-parse_key_press (one_action _ _ (launched words))
      (one_more (text "b") (plain key_b) _ _ _ _ b-parse_key_press no_action no_remaps)

deserialize_action-IsAction_example :
    deserialize_action library (remap_value fields (some 200) none)
    ≡ some (remap entries (some 200) none)
deserialize_action-IsAction_example =
    deserialize_action-IsAction library (remap_value fields (some 200) none)
      (remap entries (some 200) none)
      (remapped fields entries (some 200) none none fields-AreRemaps refl)
