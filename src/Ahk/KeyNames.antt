-- ===== src/Ahk/KeyNames.antt =====
-- ahk/parser.rs, string_to_key: the names of keys in an AutoHotkey file.
use ahk_wayland.Prelude.{Option, List, [], ◌∷◌, Text, text}
use ahk_wayland.Key.{
  Key, key_a, key_b, key_c, key_d, key_e, key_f, key_g, key_h, key_i, key_j, key_k, key_l, key_m,
  key_n, key_o, key_p, key_q, key_r, key_s, key_t, key_u, key_v, key_w, key_x, key_y, key_z, key_0,
  key_1, key_2, key_3, key_4, key_5, key_6, key_7, key_8, key_9, key_space, key_enter, key_tab,
  key_backspace, key_delete, key_esc, key_capslock, key_up, key_down, key_left, key_right, key_home,
  key_end, key_pageup, key_pagedown, key_insert, key_f1, key_f2, key_f3, key_f4, key_f5, key_f6,
  key_f7, key_f8, key_f9, key_f10, key_f11, key_f12, key_f13, key_f14, key_f15, key_f16, key_f17,
  key_f18, key_f19, key_f20, key_f21, key_f22, key_f23, key_f24, key_playpause, key_nextsong,
  key_previoussong, key_stopcd, key_volumeup, key_volumedown, key_mute,
}
use ahk_wayland.Ahk.SendParser.{lookup_name}

-- The arms of `string_to_key`.
abbrev pub key_names : List (Text × Key)
key_names =
    (text "a", key_a)
    ∷ (text "b", key_b)
    ∷ (text "c", key_c)
    ∷ (text "d", key_d)
    ∷ (text "e", key_e)
    ∷ (text "f", key_f)
    ∷ (text "g", key_g)
    ∷ (text "h", key_h)
    ∷ (text "i", key_i)
    ∷ (text "j", key_j)
    ∷ (text "k", key_k)
    ∷ (text "l", key_l)
    ∷ (text "m", key_m)
    ∷ (text "n", key_n)
    ∷ (text "o", key_o)
    ∷ (text "p", key_p)
    ∷ (text "q", key_q)
    ∷ (text "r", key_r)
    ∷ (text "s", key_s)
    ∷ (text "t", key_t)
    ∷ (text "u", key_u)
    ∷ (text "v", key_v)
    ∷ (text "w", key_w)
    ∷ (text "x", key_x)
    ∷ (text "y", key_y)
    ∷ (text "z", key_z)
    ∷ (text "0", key_0)
    ∷ (text "1", key_1)
    ∷ (text "2", key_2)
    ∷ (text "3", key_3)
    ∷ (text "4", key_4)
    ∷ (text "5", key_5)
    ∷ (text "6", key_6)
    ∷ (text "7", key_7)
    ∷ (text "8", key_8)
    ∷ (text "9", key_9)
    ∷ (text "space", key_space)
    ∷ (text "enter", key_enter)
    ∷ (text "return", key_enter)
    ∷ (text "tab", key_tab)
    ∷ (text "backspace", key_backspace)
    ∷ (text "delete", key_delete)
    ∷ (text "del", key_delete)
    ∷ (text "escape", key_esc)
    ∷ (text "esc", key_esc)
    ∷ (text "capslock", key_capslock)
    ∷ (text "up", key_up)
    ∷ (text "down", key_down)
    ∷ (text "left", key_left)
    ∷ (text "right", key_right)
    ∷ (text "home", key_home)
    ∷ (text "end", key_end)
    ∷ (text "pageup", key_pageup)
    ∷ (text "pgup", key_pageup)
    ∷ (text "pagedown", key_pagedown)
    ∷ (text "pgdn", key_pagedown)
    ∷ (text "insert", key_insert)
    ∷ (text "f1", key_f1)
    ∷ (text "f2", key_f2)
    ∷ (text "f3", key_f3)
    ∷ (text "f4", key_f4)
    ∷ (text "f5", key_f5)
    ∷ (text "f6", key_f6)
    ∷ (text "f7", key_f7)
    ∷ (text "f8", key_f8)
    ∷ (text "f9", key_f9)
    ∷ (text "f10", key_f10)
    ∷ (text "f11", key_f11)
    ∷ (text "f12", key_f12)
    ∷ (text "f13", key_f13)
    ∷ (text "f14", key_f14)
    ∷ (text "f15", key_f15)
    ∷ (text "f16", key_f16)
    ∷ (text "f17", key_f17)
    ∷ (text "f18", key_f18)
    ∷ (text "f19", key_f19)
    ∷ (text "f20", key_f20)
    ∷ (text "f21", key_f21)
    ∷ (text "f22", key_f22)
    ∷ (text "f23", key_f23)
    ∷ (text "f24", key_f24)
    ∷ (text "media_play_pause", key_playpause)
    ∷ (text "media_next", key_nextsong)
    ∷ (text "media_prev", key_previoussong)
    ∷ (text "media_stop", key_stopcd)
    ∷ (text "volume_up", key_volumeup)
    ∷ (text "volume_down", key_volumedown)
    ∷ (text "volume_mute", key_mute)
    ∷ []

-- `str::to_lowercase` is a parameter.
unfoldable pub string_to_key : (Text → Text) → Text → Option Key
string_to_key to_lowercase s = lookup_name (to_lowercase s) key_names
