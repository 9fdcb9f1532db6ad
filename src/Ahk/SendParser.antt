-- ===== src/Ahk/SendParser.antt =====
-- ahk/send_parser.rs: the string of a `Send` as a list of tokens.
-- `str::to_lowercase` of the standard library is the parameter `to_lowercase`.
pub mod Tokens
use ahk_wayland.Prelude.{
  ℕ, Bool, not, Option, none, some, List, [], ◌∷◌, ◌++◌, Text, text, text_eq, ◌==◌, is_empty,
  map_get, to_ascii_lowercase, if◌then◌else◌,
}
use ahk_wayland.Key.{
  Key, key_leftctrl, key_leftalt, key_leftshift, key_leftmeta, key_0, key_1, key_2, key_3, key_4,
  key_5, key_6, key_7, key_8, key_9, key_a, key_b, key_backspace, key_c, key_d, key_delete,
  key_down, key_e, key_end, key_enter, key_esc, key_f, key_f1, key_f10, key_f11, key_f12, key_f2,
  key_f3, key_f4, key_f5, key_f6, key_f7, key_f8, key_f9, key_g, key_h, key_home, key_i, key_j,
  key_k, key_l, key_left, key_m, key_mute, key_n, key_nextsong, key_o, key_p, key_pagedown,
  key_pageup, key_playpause, key_previoussong, key_q, key_r, key_right, key_s, key_space,
  key_stopcd, key_t, key_tab, key_u, key_up, key_v, key_volumedown, key_volumeup, key_w, key_x,
  key_y, key_z,
}

pub data SendToken : Type 0 where
  key : Key → List Key → SendToken
  text_token : Text → SendToken

-- The arms of `parse_special_key`.
abbrev pub special_keys : List (Text × Key)
special_keys =
    (text "enter", key_enter)
    ∷ (text "return", key_enter)
    ∷ (text "tab", key_tab)
    ∷ (text "space", key_space)
    ∷ (text "backspace", key_backspace)
    ∷ (text "bs", key_backspace)
    ∷ (text "delete", key_delete)
    ∷ (text "del", key_delete)
    ∷ (text "escape", key_esc)
    ∷ (text "esc", key_esc)
    ∷ (text "up", key_up)
    ∷ (text "down", key_down)
    ∷ (text "left", key_left)
    ∷ (text "right", key_right)
    ∷ (text "home", key_home)
    ∷ (text "end", key_end)
    ∷ (text "pgup", key_pageup)
    ∷ (text "pageup", key_pageup)
    ∷ (text "pgdn", key_pagedown)
    ∷ (text "pagedown", key_pagedown)
    ∷ (text "media_play_pause", key_playpause)
    ∷ (text "media_next", key_nextsong)
    ∷ (text "media_prev", key_previoussong)
    ∷ (text "media_previous", key_previoussong)
    ∷ (text "media_stop", key_stopcd)
    ∷ (text "volume_up", key_volumeup)
    ∷ (text "volume_down", key_volumedown)
    ∷ (text "volume_mute", key_mute)
    ∷ (text "mute", key_mute)
    ∷ (text "a", key_a)
    ∷ (text "b", key_b)
    ∷ (text "c", key_c)
    ∷ (text "d", key_d)
    ∷ (text "e", key_e)
    ∷ (text "f", key_f)
    ∷ (text "g", key_g)
    ∷ (text "h", key_h)
    ∷ (text "i", key_i)
    ∷ (text "j", key_j)
    ∷ (text "k", key_k)
    ∷ (text "l", key_l)
    ∷ (text "m", key_m)
    ∷ (text "n", key_n)
    ∷ (text "o", key_o)
    ∷ (text "p", key_p)
    ∷ (text "q", key_q)
    ∷ (text "r", key_r)
    ∷ (text "s", key_s)
    ∷ (text "t", key_t)
    ∷ (text "u", key_u)
    ∷ (text "v", key_v)
    ∷ (text "w", key_w)
    ∷ (text "x", key_x)
    ∷ (text "y", key_y)
    ∷ (text "z", key_z)
    ∷ (text "f1", key_f1)
    ∷ (text "f2", key_f2)
    ∷ (text "f3", key_f3)
    ∷ (text "f4", key_f4)
    ∷ (text "f5", key_f5)
    ∷ (text "f6", key_f6)
    ∷ (text "f7", key_f7)
    ∷ (text "f8", key_f8)
    ∷ (text "f9", key_f9)
    ∷ (text "f10", key_f10)
    ∷ (text "f11", key_f11)
    ∷ (text "f12", key_f12)
    ∷ []

abbrev pub lookup_name : Text → List (Text × Key) → Option Key
lookup_name name [] = none
lookup_name name ((n, k) ∷ rest) = if text_eq n name then some k else lookup_name name rest

-- The arms of `char_to_key`.
abbrev pub char_keys : List (ℕ × Key)
char_keys =
    (b'a', key_a)
    ∷ (b'b', key_b)
    ∷ (b'c', key_c)
    ∷ (b'd', key_d)
    ∷ (b'e', key_e)
    ∷ (b'f', key_f)
    ∷ (b'g', key_g)
    ∷ (b'h', key_h)
    ∷ (b'i', key_i)
    ∷ (b'j', key_j)
    ∷ (b'k', key_k)
    ∷ (b'l', key_l)
    ∷ (b'm', key_m)
    ∷ (b'n', key_n)
    ∷ (b'o', key_o)
    ∷ (b'p', key_p)
    ∷ (b'q', key_q)
    ∷ (b'r', key_r)
    ∷ (b's', key_s)
    ∷ (b't', key_t)
    ∷ (b'u', key_u)
    ∷ (b'v', key_v)
    ∷ (b'w', key_w)
    ∷ (b'x', key_x)
    ∷ (b'y', key_y)
    ∷ (b'z', key_z)
    ∷ (b'0', key_0)
    ∷ (b'1', key_1)
    ∷ (b'2', key_2)
    ∷ (b'3', key_3)
    ∷ (b'4', key_4)
    ∷ (b'5', key_5)
    ∷ (b'6', key_6)
    ∷ (b'7', key_7)
    ∷ (b'8', key_8)
    ∷ (b'9', key_9)
    ∷ (32, key_space)
    ∷ []

unfoldable pub char_to_key : ℕ → Option Key
char_to_key c = map_get (to_ascii_lowercase c) char_keys

-- The state of the loop. `key_name` is there while the inner loop reads a name in braces.
pub record SendState : Type 0 where
  pub tokens : List SendToken
  pub current_mods : List Key
  pub text_buffer : Text
  pub key_name : Option Text

unfoldable pub flush : SendState → SendState
flush s =
    if is_empty s.text_buffer
    then s
    else record s { tokens = s.tokens ++ text_token s.text_buffer ∷ []; text_buffer = [] }

-- The key of a modifier character.
unfoldable pub modifier_of : ℕ → Option Key
modifier_of c =
    if c == b'^'
    then some key_leftctrl
    else if c == b'!'
    then some key_leftalt
    else if c == b'+'
    then some key_leftshift
    else if c == b'#'
    then some key_leftmeta
    else none

-- Pushes the key, if there is one, with the modifiers read before it, and forgets these.
unfoldable pub push_key : Option Key → SendState → SendState
push_key none s = s
push_key (some k) s = record s { tokens = s.tokens ++ key k s.current_mods ∷ []; current_mods = [] }

unfoldable pub send_other : ℕ → SendState → SendState
send_other c s =
    if not (is_empty s.current_mods)
    then push_key (char_to_key c) (flush s)
    else record s { text_buffer = s.text_buffer ++ c ∷ [] }

unfoldable pub send_outside : ℕ → Option Key → SendState → SendState
send_outside c (some m) s =
    let s' = flush s in record s' { current_mods = s'.current_mods ++ m ∷ [] }
send_outside c none s =
    if c == b'{' then record (flush s) { key_name = some [] } else send_other c s

module _ (to_lowercase : Text → Text) where
  unfoldable pub parse_special_key : Text → Option Key
  parse_special_key name = lookup_name (to_lowercase name) special_keys

  unfoldable pub close_brace : Text → SendState → SendState
  close_brace name s = record (push_key (parse_special_key name) s) { key_name = none }

  -- One character of the input, in the outer loop or in the inner one.
  unfoldable pub send_char : ℕ → Option Text → SendState → SendState
  send_char c none s = send_outside c (modifier_of c) s
  send_char c (some name) s =
      if c == b'}' then close_brace name s else record s { key_name = some (name ++ c ∷ []) }

  -- The end of the input: a name without its brace counts as read.
  unfoldable pub send_end : Option Text → SendState → List SendToken
  send_end none s = (flush s).tokens
  send_end (some name) s = (flush (close_brace name s)).tokens

  unfoldable pub send_loop : Text → SendState → List SendToken
  send_loop [] s = send_end s.key_name s
  send_loop (c ∷ input) s = send_loop input (send_char c s.key_name s)

  unfoldable pub parse_send_string : Text → List SendToken
  parse_send_string input =
      send_loop input (record { tokens = []; current_mods = []; text_buffer = []; key_name = none })
