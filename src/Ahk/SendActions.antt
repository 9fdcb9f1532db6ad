-- ===== src/Ahk/SendActions.antt =====
-- ahk/interpreter.rs, convert_send_to_actions: the key events of a Send string.
use mathlib.Core.List.{reverse}
use ahk_wayland.Prelude.{
  ℕ, Bool, true, false, Option, none, some, List, [], ◌∷◌, ◌++◌, map, Text, map_get, if◌then◌else◌,
}
use ahk_wayland.Key.{
  Key, key_leftshift, key_0, key_1, key_2, key_3, key_4, key_5, key_6, key_7, key_8, key_9, key_a,
  key_apostrophe, key_b, key_backslash, key_c, key_comma, key_d, key_dot, key_e, key_enter,
  key_equal, key_f, key_g, key_grave, key_h, key_i, key_j, key_k, key_l, key_leftbrace, key_m,
  key_minus, key_n, key_o, key_p, key_q, key_r, key_rightbrace, key_s, key_semicolon, key_slash,
  key_space, key_t, key_tab, key_u, key_v, key_w, key_x, key_y, key_z,
}
use ahk_wayland.Event.{Action, press, release, key_action}
use ahk_wayland.Ahk.SendParser.{SendToken, key, text_token, parse_send_string}

-- The arms of `char_to_key_with_shift`: the key, and whether it wants shift.
abbrev pub shifted_keys : List (ℕ × (Key × Bool))
shifted_keys =
    (b'a', (key_a, false))
    ∷ (b'b', (key_b, false))
    ∷ (b'c', (key_c, false))
    ∷ (b'd', (key_d, false))
    ∷ (b'e', (key_e, false))
    ∷ (b'f', (key_f, false))
    ∷ (b'g', (key_g, false))
    ∷ (b'h', (key_h, false))
    ∷ (b'i', (key_i, false))
    ∷ (b'j', (key_j, false))
    ∷ (b'k', (key_k, false))
    ∷ (b'l', (key_l, false))
    ∷ (b'm', (key_m, false))
    ∷ (b'n', (key_n, false))
    ∷ (b'o', (key_o, false))
    ∷ (b'p', (key_p, false))
    ∷ (b'q', (key_q, false))
    ∷ (b'r', (key_r, false))
    ∷ (b's', (key_s, false))
    ∷ (b't', (key_t, false))
    ∷ (b'u', (key_u, false))
    ∷ (b'v', (key_v, false))
    ∷ (b'w', (key_w, false))
    ∷ (b'x', (key_x, false))
    ∷ (b'y', (key_y, false))
    ∷ (b'z', (key_z, false))
    ∷ (b'A', (key_a, true))
    ∷ (b'B', (key_b, true))
    ∷ (b'C', (key_c, true))
    ∷ (b'D', (key_d, true))
    ∷ (b'E', (key_e, true))
    ∷ (b'F', (key_f, true))
    ∷ (b'G', (key_g, true))
    ∷ (b'H', (key_h, true))
    ∷ (b'I', (key_i, true))
    ∷ (b'J', (key_j, true))
    ∷ (b'K', (key_k, true))
    ∷ (b'L', (key_l, true))
    ∷ (b'M', (key_m, true))
    ∷ (b'N', (key_n, true))
    ∷ (b'O', (key_o, true))
    ∷ (b'P', (key_p, true))
    ∷ (b'Q', (key_q, true))
    ∷ (b'R', (key_r, true))
    ∷ (b'S', (key_s, true))
    ∷ (b'T', (key_t, true))
    ∷ (b'U', (key_u, true))
    ∷ (b'V', (key_v, true))
    ∷ (b'W', (key_w, true))
    ∷ (b'X', (key_x, true))
    ∷ (b'Y', (key_y, true))
    ∷ (b'Z', (key_z, true))
    ∷ (b'0', (key_0, false))
    ∷ (b'1', (key_1, false))
    ∷ (b'2', (key_2, false))
    ∷ (b'3', (key_3, false))
    ∷ (b'4', (key_4, false))
    ∷ (b'5', (key_5, false))
    ∷ (b'6', (key_6, false))
    ∷ (b'7', (key_7, false))
    ∷ (b'8', (key_8, false))
    ∷ (b'9', (key_9, false))
    ∷ (b'!', (key_1, true))
    ∷ (b'@', (key_2, true))
    ∷ (b'#', (key_3, true))
    ∷ (b'$', (key_4, true))
    ∷ (b'%', (key_5, true))
    ∷ (b'^', (key_6, true))
    ∷ (b'&', (key_7, true))
    ∷ (b'*', (key_8, true))
    ∷ (b'(', (key_9, true))
    ∷ (b')', (key_0, true))
    ∷ (32, (key_space, false))
    ∷ (b'.', (key_dot, false))
    ∷ (b',', (key_comma, false))
    ∷ (b';', (key_semicolon, false))
    ∷ (b'/', (key_slash, false))
    ∷ (39, (key_apostrophe, false))
    ∷ (b'-', (key_minus, false))
    ∷ (b'=', (key_equal, false))
    ∷ (b'[', (key_leftbrace, false))
    ∷ (b']', (key_rightbrace, false))
    ∷ (92, (key_backslash, false))
    ∷ (b'`', (key_grave, false))
    ∷ (b':', (key_semicolon, true))
    ∷ (b'?', (key_slash, true))
    ∷ (b'"', (key_apostrophe, true))
    ∷ (b'_', (key_minus, true))
    ∷ (b'+', (key_equal, true))
    ∷ (b'{', (key_leftbrace, true))
    ∷ (b'}', (key_rightbrace, true))
    ∷ (b'|', (key_backslash, true))
    ∷ (b'~', (key_grave, true))
    ∷ (b'<', (key_comma, true))
    ∷ (b'>', (key_dot, true))
    ∷ (10, (key_enter, false))
    ∷ (9, (key_tab, false))
    ∷ []

unfoldable pub char_to_key_with_shift : ℕ → Option (Key × Bool)
char_to_key_with_shift c = map_get c shifted_keys

abbrev pub shift_action : Bool → Action → List Action
shift_action needs_shift a = if needs_shift then a ∷ [] else []

abbrev pub tap : Key → List Action
tap k = key_action k press ∷ key_action k release ∷ []

unfoldable pub char_actions : Option (Key × Bool) → List Action
char_actions none = []
char_actions (some (k, needs_shift)) =
    shift_action needs_shift (key_action key_leftshift press)
    ++ (tap k ++ shift_action needs_shift (key_action key_leftshift release))

unfoldable pub text_actions : Text → List Action
text_actions [] = []
text_actions (c ∷ s) = char_actions (char_to_key_with_shift c) ++ text_actions s

abbrev pub press_all : List Key → List Action
press_all ks = map (λ k. key_action k press) ks

abbrev pub release_all : List Key → List Action
release_all ks = map (λ k. key_action k release) ks

unfoldable pub token_actions : SendToken → List Action
token_actions (text_token s) = text_actions s
token_actions (key k modifiers) = press_all modifiers ++ (tap k ++ release_all (reverse modifiers))

unfoldable pub tokens_actions : List SendToken → List Action
tokens_actions [] = []
tokens_actions (t ∷ ts) = token_actions t ++ tokens_actions ts

unfoldable pub convert_send_to_actions : (Text → Text) → Text → List Action
convert_send_to_actions to_lowercase send_str =
    tokens_actions (parse_send_string to_lowercase send_str)
