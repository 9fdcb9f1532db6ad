-- ===== src/Ahk/ActionParser.antt =====
-- ahk/parser.rs, parse_action: one action of a hotkey.
pub mod Errors
use ahk_wayland.Prelude.{
  ℕ, Bool, true, false, Option, none, some, List, [], ◌∷◌, Text, text, trim, trim_matches, is_quote,
  split, split_whitespace, map, strip_prefix, parse_u64, if◌then◌else◌,
}
use ahk_wayland.Key.{Key}
use ahk_wayland.Ahk.Types
use ahk_wayland.Ahk.Types.{
  AhkAction, run, send, remap, sleep, win_activate, win_close, win_wait_active,
}
use ahk_wayland.Ahk.Escape.{unescape_ahk_string}
use ahk_wayland.Ahk.Criteria.{between, parse_window_criteria}
use ahk_wayland.Ahk.KeyNames.{string_to_key}
use ahk_wayland.Ahk.Parsed.{Parsed, ok, err, ◌>>=◌}

-- What the arms of `parse_action` come to, in their order: none if an arm does not apply.
abbrev pub Arm : Type 0
Arm = Option (Parsed AhkAction)

abbrev pub or_arm : Arm → Arm → Arm
or_arm none later = later
or_arm (some r) later = some r

abbrev pub on_text : (Text → Parsed AhkAction) → Option Text → Arm
on_text f none = none
on_text f (some s) = some (f s)

unfoldable pub window_action : (Types.WindowCriteria → AhkAction) → Text → Parsed AhkAction
unfolding parse_window_criteria
window_action f content = do c ← parse_window_criteria content; ok (f c)

-- The criteria, and the timeout if there is a second part that is a number.
abbrev pub first_part : List Text → Text
first_part [] = []
first_part (s ∷ rest) = s

abbrev pub timeout_of : List Text → Option ℕ
timeout_of (s ∷ t ∷ rest) = parse_u64 t
timeout_of _ = none

abbrev pub wait_parts : Text → List Text
wait_parts content = map trim (split b',' content)

unfoldable pub wait_action : Text → Parsed AhkAction
unfolding parse_window_criteria
wait_action content = do
  c ← parse_window_criteria (first_part (wait_parts content))
  ok (win_wait_active c (timeout_of (wait_parts content)))

unfoldable pub run_action : Text → Parsed AhkAction
unfolding unescape_ahk_string
run_action s = ok (run (split_whitespace (unescape_ahk_string (trim_matches is_quote (trim s)))))

unfoldable pub send_text_action : Text → Parsed AhkAction
unfolding unescape_ahk_string
send_text_action s = ok (send (unescape_ahk_string (trim_matches is_quote s)))

-- The loops over the prefixes of `Send`.
abbrev pub send_call : Text → Text → Arm
send_call name s = on_text (λ content. send_text_action (trim content)) (between name s)

abbrev pub send_word : Text → Text → Arm
send_word name s = on_text send_text_action (strip_prefix name s)

abbrev pub sleep_for : Option ℕ → Arm
sleep_for none = none
sleep_for (some ms) = some (ok (sleep ms))

abbrev pub sleep_arm : Option Text → Arm
sleep_arm none = none
sleep_arm (some s) = sleep_for (parse_u64 (trim s))

-- The last two arms both look the text up as a key.
abbrev pub key_or_err : Option Key → Parsed AhkAction
key_or_err none = err
key_or_err (some k) = ok (remap (k ∷ []))

abbrev pub window_arms : Text → Arm
window_arms s = or_arm (on_text (window_action win_activate) (between (text "WinActivate(") s)) (
    or_arm (on_text wait_action (between (text "WinWaitActive(") s))
      (on_text (window_action win_close) (between (text "WinClose(") s)))

abbrev pub run_arms : Text → Arm
run_arms s =
    or_arm (on_text run_action (strip_prefix (text "Run ") s))
      (on_text run_action (between (text "Run(") s))

abbrev pub send_arms : Text → Arm
send_arms s = or_arm (send_call (text "SendInput(") s) (
    or_arm (send_call (text "SendEvent(") s) (
      or_arm (send_call (text "Send(") s) (
        or_arm (send_word (text "SendInput ") s)
          (or_arm (send_word (text "SendEvent ") s) (send_word (text "Send ") s)))))

abbrev pub or_key : (Text → Text) → Text → Arm → Parsed AhkAction
or_key to_lowercase s none = key_or_err (string_to_key to_lowercase s)
or_key to_lowercase s (some r) = r

unfoldable pub parse_action : (Text → Text) → Text → Parsed AhkAction
unfolding window_action wait_action run_action send_text_action string_to_key
parse_action to_lowercase action_str =
    let s = trim action_str in
    or_key to_lowercase s (
      or_arm (window_arms s)
        (or_arm (run_arms s) (or_arm (send_arms s) (sleep_arm (strip_prefix (text "Sleep ") s)))))
