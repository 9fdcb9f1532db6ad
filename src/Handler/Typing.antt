-- ===== src/Handler/Typing.antt =====
-- event_handler.rs: the hotstring part of a key press.
use ahk_wayland.Prelude.{
  ℕ, ◌+◌, ◌-◌, Bool, true, false, not, ◌&&◌, Option, none, some, List, [], ◌∷◌, ◌++◌, Text, text,
  ◌==◌, ltb, length, contains, map_get, strip_prefix, strip_suffix, trim, trim_matches, is_quote,
  split_whitespace, byte_len, if◌then◌else◌,
}
use ahk_wayland.Key.{
  Key, key_a, key_b, key_c, key_d, key_e, key_f, key_g, key_h, key_i, key_j, key_k, key_l, key_m,
  key_n, key_o, key_p, key_q, key_r, key_s, key_t, key_u, key_v, key_w, key_x, key_y, key_z, key_0,
  key_1, key_2, key_3, key_4, key_5, key_6, key_7, key_8, key_9, key_dot, key_comma, key_semicolon,
  key_slash, key_apostrophe, key_minus, key_equal, key_leftbrace, key_rightbrace, key_backslash,
  key_grave, key_space, key_tab, key_enter, key_leftshift, key_rightshift, key_leftctrl,
  key_rightctrl, key_leftalt, key_rightalt, key_leftmeta, key_rightmeta, key_up, key_down, key_left,
  key_right, key_home, key_end, key_pageup, key_pagedown, key_f1, key_f2, key_f3, key_f4, key_f5,
  key_f6, key_f7, key_f8, key_f9, key_f10, key_f11, key_f12, key_esc, key_delete, key_insert,
  key_capslock, key_backspace,
}
use ahk_wayland.Event.{press, release, command, text_expansion}
use ahk_wayland.Hotstring.{HotstringMatch, Round, process}
use ahk_wayland.Ahk.Interpreter.{is_url}
use ahk_wayland.Handler.State.{EventHandler, Outcome, ok, panic, send_action, send_key}

-- The arms of `key_to_char` that give a character.
abbrev pub typed_chars : List (Key × ℕ)
typed_chars =
    (key_a, b'a')
    ∷ (key_b, b'b')
    ∷ (key_c, b'c')
    ∷ (key_d, b'd')
    ∷ (key_e, b'e')
    ∷ (key_f, b'f')
    ∷ (key_g, b'g')
    ∷ (key_h, b'h')
    ∷ (key_i, b'i')
    ∷ (key_j, b'j')
    ∷ (key_k, b'k')
    ∷ (key_l, b'l')
    ∷ (key_m, b'm')
    ∷ (key_n, b'n')
    ∷ (key_o, b'o')
    ∷ (key_p, b'p')
    ∷ (key_q, b'q')
    ∷ (key_r, b'r')
    ∷ (key_s, b's')
    ∷ (key_t, b't')
    ∷ (key_u, b'u')
    ∷ (key_v, b'v')
    ∷ (key_w, b'w')
    ∷ (key_x, b'x')
    ∷ (key_y, b'y')
    ∷ (key_z, b'z')
    ∷ (key_0, b'0')
    ∷ (key_1, b'1')
    ∷ (key_2, b'2')
    ∷ (key_3, b'3')
    ∷ (key_4, b'4')
    ∷ (key_5, b'5')
    ∷ (key_6, b'6')
    ∷ (key_7, b'7')
    ∷ (key_8, b'8')
    ∷ (key_9, b'9')
    ∷ (key_dot, b'.')
    ∷ (key_comma, b',')
    ∷ (key_semicolon, b';')
    ∷ (key_slash, b'/')
    ∷ (key_apostrophe, 39)
    ∷ (key_minus, b'-')
    ∷ (key_equal, b'=')
    ∷ (key_leftbrace, b'[')
    ∷ (key_rightbrace, b']')
    ∷ (key_backslash, 92)
    ∷ (key_grave, b'`')
    ∷ (key_space, 32)
    ∷ (key_tab, 9)
    ∷ (key_enter, 10)
    ∷ []

-- The keys that clear the buffer and the state.
abbrev pub clearing_keys : List Key
clearing_keys =
    key_leftshift ∷ key_rightshift ∷ key_leftctrl ∷ key_rightctrl ∷ key_leftalt ∷ key_rightalt
    ∷ key_leftmeta ∷ key_rightmeta ∷ key_up ∷ key_down ∷ key_left ∷ key_right ∷ key_home ∷ key_end
    ∷ key_pageup ∷ key_pagedown ∷ key_f1 ∷ key_f2 ∷ key_f3 ∷ key_f4 ∷ key_f5 ∷ key_f6 ∷ key_f7
    ∷ key_f8 ∷ key_f9 ∷ key_f10 ∷ key_f11 ∷ key_f12 ∷ key_esc ∷ key_delete ∷ key_insert
    ∷ key_capslock ∷ []

-- `String::pop`
unfoldable pub pop : Text → Text
pop [] = []
pop (c ∷ []) = []
pop (c ∷ d ∷ s) = c ∷ pop (d ∷ s)

abbrev pub typed_char : Key → Option ℕ
typed_char k = map_get k typed_chars

-- The rest of `key_to_char`: what a key that gives no character does to the handler.
unfoldable pub untyped_key : Key → EventHandler → EventHandler
untyped_key k s =
    if k == key_backspace
    then record s { hotstring_buffer = pop s.hotstring_buffer }
    else if contains clearing_keys k
    then record s { hotstring_state = none; hotstring_buffer = [] }
    else s

unfoldable pub drop : ℕ → Text → Text
drop ℕ.zero s = s
drop (ℕ.suc n) [] = []
drop (ℕ.suc n) (c ∷ s) = drop n s

-- At most the last 100 characters; they are ASCII, so bytes are characters.
unfoldable pub push_char : ℕ → Text → Text
push_char c buffer =
    let longer = buffer ++ c ∷ [] in
    if ltb 100 (length longer) then drop (length longer - 100) longer else longer

-- The trigger's bytes, and the closing character where it is not kept.
unfoldable pub chars_to_delete : HotstringMatch → ℕ
chars_to_delete m = if m.omit_char then byte_len m.trigger else byte_len m.trigger + 1

unfoldable pub backspaces : ℕ → EventHandler → EventHandler
backspaces ℕ.zero s = s
backspaces (ℕ.suc n) s =
    backspaces n (send_key key_backspace release (send_key key_backspace press s))

-- The command in the replacement of a hotstring that is run.
abbrev pub run_words : Text → List Text
run_words cmd = if is_url cmd then text "xdg-open" ∷ cmd ∷ [] else split_whitespace cmd

abbrev pub run_content : Option Text → Option (List Text)
run_content none = none
run_content (some rest) = elim (strip_suffix (text ")") rest) [
  | none ↦ none
  | some cmd ↦ some (run_words (trim_matches is_quote (trim cmd)))
]

unfoldable pub replacement_command : Text → Option (List Text)
replacement_command r = run_content (strip_prefix (text "Run(") r)

abbrev pub send_command : Option (List Text) → EventHandler → EventHandler
send_command none s = s
send_command (some words) s = send_action (command words) s

unfoldable pub expand : HotstringMatch → EventHandler → EventHandler
unfolding backspaces replacement_command chars_to_delete
expand m s =
    if m.execute
    then send_command (replacement_command m.replacement) (backspaces (chars_to_delete m) s)
    else send_action
        (text_expansion (chars_to_delete m) m.replacement (not m.omit_char && not m.immediate)) s

-- After a character: the new state, and whether a hotstring took the key.
abbrev pub Typed : Type 0
Typed = Outcome (EventHandler × Bool)

abbrev pub after_round : Round → EventHandler → Typed
after_round (Round.advance ps) s = ok (record s { hotstring_state = some ps }, false)
after_round (Round.matched m) s =
    ok (record (expand m s) { hotstring_buffer = []; hotstring_state = none }, true)
after_round Round.panic s = panic

abbrev pub type_char : List HotstringMatch → Option ℕ → Key → EventHandler → Typed
type_char ms none k s = ok (untyped_key k s, false)
type_char ms (some c) k s =
    after_round (process ms s.hotstring_state (c ∷ []))
      (record s { hotstring_buffer = push_char c s.hotstring_buffer })

unfoldable pub type_key : Option (List HotstringMatch) → Key → EventHandler → Typed
type_key none k s = ok (s, false)
type_key (some ms) k s = type_char ms (typed_char k) k s
