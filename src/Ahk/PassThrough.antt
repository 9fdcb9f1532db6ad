-- ===== src/Ahk/PassThrough.antt =====
-- ahk/parser.rs, parse_hotkey: a hotkey under a `#HotIf` sends its own keys on where the window is
-- another one. This is the string of that `Send`.
pub mod RoundTrip
use ahk_wayland.Prelude.{
  Option, none, some, List, [], ◌∷◌, ◌++◌, ◌||◌, Text, text, ◌==◌, map_get, if◌then◌else◌,
}
use ahk_wayland.Key.{
  Key, key_leftctrl, key_rightctrl, key_leftalt, key_rightalt, key_leftshift, key_rightshift,
  key_leftmeta, key_rightmeta, key_a, key_b, key_c, key_d, key_e, key_f, key_g, key_h, key_i, key_j,
  key_k, key_l, key_m, key_n, key_o, key_p, key_q, key_r, key_s, key_t, key_u, key_v, key_w, key_x,
  key_y, key_z, key_0, key_1, key_2, key_3, key_4, key_5, key_6, key_7, key_8, key_9, key_space,
  key_enter, key_tab, key_backspace, key_delete, key_esc, key_capslock, key_up, key_down, key_left,
  key_right, key_home, key_end, key_pageup, key_pagedown, key_insert, key_f1, key_f2, key_f3,
  key_f4, key_f5, key_f6, key_f7, key_f8, key_f9, key_f10, key_f11, key_f12, key_f13, key_f14,
  key_f15, key_f16, key_f17, key_f18, key_f19, key_f20, key_f21, key_f22, key_f23, key_f24,
  key_playpause, key_nextsong, key_previoussong, key_volumeup, key_volumedown, key_mute,
}

-- The character that is pushed for a modifier key; none for any other key.
unfoldable pub modifier_char : Key → Text
modifier_char k =
    if k == key_leftctrl || k == key_rightctrl
    then text "^"
    else if k == key_leftalt || k == key_rightalt
    then text "!"
    else if k == key_leftshift || k == key_rightshift
    then text "+"
    else if k == key_leftmeta || k == key_rightmeta
    then text "#"
    else []

unfoldable pub modifier_chars : List Key → Text
modifier_chars [] = []
modifier_chars (k ∷ ks) = modifier_char k ++ modifier_chars ks

-- The arms of the name of the main key.
abbrev pub pass_through_names : List (Key × Text)
pass_through_names =
    (key_a, text "a")
    ∷ (key_b, text "b")
    ∷ (key_c, text "c")
    ∷ (key_d, text "d")
    ∷ (key_e, text "e")
    ∷ (key_f, text "f")
    ∷ (key_g, text "g")
    ∷ (key_h, text "h")
    ∷ (key_i, text "i")
    ∷ (key_j, text "j")
    ∷ (key_k, text "k")
    ∷ (key_l, text "l")
    ∷ (key_m, text "m")
    ∷ (key_n, text "n")
    ∷ (key_o, text "o")
    ∷ (key_p, text "p")
    ∷ (key_q, text "q")
    ∷ (key_r, text "r")
    ∷ (key_s, text "s")
    ∷ (key_t, text "t")
    ∷ (key_u, text "u")
    ∷ (key_v, text "v")
    ∷ (key_w, text "w")
    ∷ (key_x, text "x")
    ∷ (key_y, text "y")
    ∷ (key_z, text "z")
    ∷ (key_0, text "0")
    ∷ (key_1, text "1")
    ∷ (key_2, text "2")
    ∷ (key_3, text "3")
    ∷ (key_4, text "4")
    ∷ (key_5, text "5")
    ∷ (key_6, text "6")
    ∷ (key_7, text "7")
    ∷ (key_8, text "8")
    ∷ (key_9, text "9")
    ∷ (key_space, text "Space")
    ∷ (key_enter, text "Enter")
    ∷ (key_tab, text "Tab")
    ∷ (key_backspace, text "Backspace")
    ∷ (key_delete, text "Delete")
    ∷ (key_esc, text "Esc")
    ∷ (key_capslock, text "CapsLock")
    ∷ (key_up, text "Up")
    ∷ (key_down, text "Down")
    ∷ (key_left, text "Left")
    ∷ (key_right, text "Right")
    ∷ (key_home, text "Home")
    ∷ (key_end, text "End")
    ∷ (key_pageup, text "PgUp")
    ∷ (key_pagedown, text "PgDn")
    ∷ (key_insert, text "Insert")
    ∷ (key_f1, text "F1")
    ∷ (key_f2, text "F2")
    ∷ (key_f3, text "F3")
    ∷ (key_f4, text "F4")
    ∷ (key_f5, text "F5")
    ∷ (key_f6, text "F6")
    ∷ (key_f7, text "F7")
    ∷ (key_f8, text "F8")
    ∷ (key_f9, text "F9")
    ∷ (key_f10, text "F10")
    ∷ (key_f11, text "F11")
    ∷ (key_f12, text "F12")
    ∷ (key_f13, text "F13")
    ∷ (key_f14, text "F14")
    ∷ (key_f15, text "F15")
    ∷ (key_f16, text "F16")
    ∷ (key_f17, text "F17")
    ∷ (key_f18, text "F18")
    ∷ (key_f19, text "F19")
    ∷ (key_f20, text "F20")
    ∷ (key_f21, text "F21")
    ∷ (key_f22, text "F22")
    ∷ (key_f23, text "F23")
    ∷ (key_f24, text "F24")
    ∷ (key_playpause, text "Media_Play_Pause")
    ∷ (key_nextsong, text "Media_Next")
    ∷ (key_previoussong, text "Media_Prev")
    ∷ (key_volumeup, text "Volume_Up")
    ∷ (key_volumedown, text "Volume_Down")
    ∷ (key_mute, text "Volume_Mute")
    ∷ []

abbrev pub in_braces : Text → Text
in_braces name = b'{' ∷ (name ++ b'}' ∷ [])

-- The string; there is none, and an error, for a key that has no name here.
abbrev pub braced : List Key → Option Text → Option Text
braced modifiers none = none
braced modifiers (some name) = some (modifier_chars modifiers ++ in_braces name)

unfoldable pub pass_through : List Key → Key → Option Text
pass_through modifiers k = braced modifiers (map_get k pass_through_names)
