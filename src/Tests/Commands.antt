-- ===== src/Tests/Commands.antt =====
-- ahk/send_parser.rs, ahk/interpreter.rs and the pass-through strings of ahk/parser.rs on concrete
-- actions.
use ahk_wayland.Prelude.{
  ℕ, ◌≡◌, ◌<◌, zero, suc, false, ◌≤◌, ◌+◌, refl, true, ◌||◌, some, List, [], ◌∷◌, ◌++◌, Text, text,
  map, contains, to_ascii_lowercase, arith, ◌==◌,
}
use ahk_wayland.Key.{key_x, key_enter, key_leftctrl, key_leftshift}
use ahk_wayland.Event.{Action}
use ahk_wayland.Keyboard.{Held, replay}
use ahk_wayland.Ahk.Types
use ahk_wayland.Ahk.Types.{AhkAction, WindowCriteria, title}
use ahk_wayland.Ahk.SendParser.{parse_send_string, parse_special_key, SendToken}
use ahk_wayland.Ahk.SendParser.Tokens.{parse_send_string-chord, key_or_nothing}
use ahk_wayland.Ahk.PassThrough.{pass_through}
use ahk_wayland.Ahk.PassThrough.RoundTrip.{readable, pass_through-read}
use ahk_wayland.Ahk.Interpreter.{
  taps, execute, done, wait_forever, without_modifiers, check_window_active,
}
use ahk_wayland.Ahk.Interpreter.Balance.{execute-leaves}
use ahk_wayland.Ahk.Interpreter.Termination.{queries, DoneBy, execute_total, wait_forever-returns}
use ahk_wayland.Tests.Fixtures.{world}

abbrev ctrl_down : Held
ctrl_down j = key_leftctrl == j

abbrev send_x : AhkAction
send_x = AhkAction.remap (key_x ∷ [])

execute-leaves_example :
    (contains (key_leftctrl ∷ []) key_leftctrl || ctrl_down key_leftctrl) ≡ true
unfolding execute ahk_wayland.Ahk.Interpreter.execute_into replay
execute-leaves_example =
    execute-leaves world (key_leftctrl ∷ []) 0 send_x 0 0
      (without_modifiers (key_leftctrl ∷ []) (taps (key_x ∷ []))) ctrl_down key_leftctrl refl refl

abbrev wait_for_mail : AhkAction
wait_for_mail = AhkAction.win_wait_active (title (text "Mail")) (some 200)

abbrev sends_and_waits : AhkAction
sends_and_waits =
    AhkAction.block
      (Types.AhkActions.cons send_x (Types.AhkActions.cons wait_for_mail Types.AhkActions.nil))

execute_total_example :
    (xs : List Action) × (n' : ℕ) × (execute world (key_leftctrl ∷ []) 0 sends_and_waits 0
      ≡ done xs n')
    × (n' ≤ 0 + queries sends_and_waits)
unfolding ahk_wayland.Ahk.Interpreter.Termination.IsBounded
execute_total_example = execute_total world (key_leftctrl ∷ []) 0 sends_and_waits 0 (tt, (tt, tt))

wait_forever-returns_example : wait_forever world (title (text "Mail")) 3 0 ≡ done [] (0 + 2 + 1)
unfolding check_window_active
wait_forever-returns_example =
    wait_forever-returns world (title (text "Mail")) 3 0 2 (omega arith) refl not_yet
  where
    not_yet : (i : ℕ) → i < 2 → check_window_active world (0 + i) (title (text "Mail")) ≡ false
    not_yet zero h = refl
    not_yet (suc zero) h = refl
    not_yet (suc (suc i)) h = absurd (omega arith)

abbrev lowercase : Text → Text
lowercase = map to_ascii_lowercase

-- Ctrl+Enter is read again; Ctrl+1 is lost.
pass_through-read_example :
    parse_send_string lowercase (text "^{Enter}")
    ≡ key_or_nothing (readable key_enter) (key_leftctrl ∷ [])
unfolding pass_through ahk_wayland.Ahk.PassThrough.modifier_chars
    ahk_wayland.Ahk.PassThrough.modifier_char
pass_through-read_example =
    pass_through-read lowercase (key_leftctrl ∷ []) key_enter (text "^{Enter}") (λ s h. refl) refl

ctrl_1_is_lost : parse_send_string lowercase (text "^{1}") ≡ []
unfolding parse_send_string ahk_wayland.Ahk.SendParser.send_loop ahk_wayland.Ahk.SendParser.send_end
    ahk_wayland.Ahk.SendParser.send_char ahk_wayland.Ahk.SendParser.send_outside
    ahk_wayland.Ahk.SendParser.modifier_of ahk_wayland.Ahk.SendParser.flush
    ahk_wayland.Ahk.SendParser.close_brace ahk_wayland.Ahk.SendParser.push_key parse_special_key
ctrl_1_is_lost = refl

parse_send_string-chord_example :
    parse_send_string lowercase (text "^+" ++ (b'{' ∷ (text "Home" ++ b'}' ∷ [])))
    ≡ key_or_nothing (parse_special_key lowercase (text "Home")) (key_leftctrl ∷ key_leftshift ∷ [])
unfolding parse_send_string ahk_wayland.Ahk.SendParser.modifier_of
parse_send_string-chord_example =
    parse_send_string-chord lowercase (text "^+") (key_leftctrl ∷ key_leftshift ∷ []) (text "Home")
      (refl, (refl, tt)) (refl, (refl, (refl, (refl, tt))))
