-- ===== src/Tests/Tables.antt =====
-- The tables of the configuration, and the search in them, on concrete entries.
use ahk_wayland.Prelude.{some, refl, ◌≡◌, true, false, none, List, [], ◌∷◌}
use ahk_wayland.Key.{key_a, key_b, key_c, key_x}
use ahk_wayland.Config.Types
use ahk_wayland.Config.Types.{
  KeyPress, Keymap, KeymapAction, KeymapEntry, OverrideEntry, Remaps, control, shift, remap_entries,
}
use ahk_wayland.Config.Keymap.{build_override_table, keymap_entries, for_key, override_entry}
use ahk_wayland.Handler.Lookup.{scan_globals}
use ahk_wayland.Handler.Scan.{winner, global_candidates, scan_globals-winner}
use ahk_wayland.Handler.State.{EventHandler, ok}
use ahk_wayland.Handler.Lookup.{Found, find_keymap}
use ahk_wayland.Handler.Nested.{IsClosed, closing_taps, find_keymap-closes}
use ahk_wayland.Config.Application.{
  Piece, plain, escaped, slash, quoted, pattern_text, slash_unescape, slash_unescape-quoted,
}
use ahk_wayland.Tests.Fixtures.{env, no_config, device, fresh}

abbrev ctrl_a : KeyPress
ctrl_a = record { key = key_a; modifiers = control ∷ [] }

abbrev plain_a : KeyPress
plain_a = record { key = key_a; modifiers = [] }

abbrev keymap : Keymap
keymap = record {
  remap =
      (ctrl_a, KeymapAction.key_press key_b ∷ [])
      ∷ (plain_a, KeymapAction.key_press key_c ∷ [])
      ∷ [];
  application = none;
  window = none;
  device = none;
  mode = none;
  exact_match = false;
}

abbrev nested : Remaps
nested =
    Remaps.entry plain_a
      (Types.KeymapActions.cons (KeymapAction.key_press key_x) Types.KeymapActions.nil) Remaps.end

abbrev entries : List KeymapEntry
entries = keymap_entries key_a (keymap ∷ [])

scan_globals-winner_example :
    scan_globals device false entries fresh []
    ≡ winner (global_candidates device false fresh entries)
scan_globals-winner_example = scan_globals-winner device false fresh entries

abbrev overrides : List OverrideEntry
overrides = for_key (override_entry true) key_a (remap_entries nested)

-- A nested remap is open, with a timer.
abbrev remapping : EventHandler
remapping = record fresh {
  override_remaps = build_override_table nested true ∷ [];
  override_timer = some 100;
  override_timeout_key = some (key_c ∷ []);
}

find_keymap-closes_example :
    (found : Found) × (find_keymap env no_config device key_b remapping ≡ ok found)
    × IsClosed remapping (closing_taps key_b remapping) found.1
find_keymap-closes_example = find_keymap-closes env no_config device key_b remapping refl refl

-- The pattern a/\. is written /a\/\./.
abbrev pieces : List Piece
pieces = plain b'a' ∷ plain b'/' ∷ escaped b'.' ∷ []

slash_unescape-quoted_example : slash_unescape (slash ∷ quoted pieces) ≡ some (pattern_text pieces)
slash_unescape-quoted_example = slash_unescape-quoted pieces (refl, (refl, (refl, tt)))
