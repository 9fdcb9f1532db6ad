-- ===== src/Ahk/Transpiler.antt =====
-- ahk/transpiler.rs: the hotstrings of an AutoHotkey file for the matcher. Their contexts are left.
use ahk_wayland.Prelude.{ℕ, ◌+◌, List, [], ◌∷◌}
use ahk_wayland.Ahk.Types.{AhkHotstring, AhkConfig}
use ahk_wayland.Hotstring.{HotstringMatch, from_trigger}

unfoldable pub transpile_to_xremap : AhkConfig → AhkConfig
transpile_to_xremap ahk = ahk

abbrev pub hotstring_match : ℕ → AhkHotstring → HotstringMatch
hotstring_match idx hs =
    from_trigger idx hs.trigger hs.replacement hs.immediate hs.case_sensitive hs.omit_char
      hs.execute

abbrev pub matches_from : ℕ → List AhkHotstring → List HotstringMatch
matches_from idx [] = []
matches_from idx (hs ∷ rest) = hotstring_match idx hs ∷ matches_from (idx + 1) rest

unfoldable pub extract_hotstrings : AhkConfig → List HotstringMatch
unfolding from_trigger
extract_hotstrings ahk = matches_from 0 ahk.hotstrings
