-- ===== src/Ahk/Interpreter.antt =====
-- ahk/interpreter.rs: an action of an AutoHotkey file as actions of the event handler.
-- `check_window_active` always returns `Ok`, so no step of the interpreter returns an error; it
-- panics on a `Run` with no parts, and `win_wait_active` with no timeout may not return (fuel).
-- The queries to the window manager are counted. The debug output is left out.
pub mod Balance
pub mod Termination
use mathlib.Core.List.{reverse}
use ahk_wayland.Prelude.{
  join, ℕ, zero, suc, ◌+◌, ◌/◌, Bool, true, false, ◌||◌, Option, none, some, List, [], ◌∷◌, ◌++◌,
  map, Text, text, text_eq, starts_with, map_get, if◌then◌else◌,
}
use ahk_wayland.World.{World}
use ahk_wayland.Key.{
  Key, key_leftshift, key_0, key_1, key_2, key_3, key_4, key_5, key_6, key_7, key_8, key_9, key_a,
  key_apostrophe, key_b, key_backslash, key_c, key_comma, key_d, key_dot, key_e, key_enter,
  key_equal, key_f, key_g, key_grave, key_h, key_i, key_j, key_k, key_l, key_leftbrace, key_m,
  key_minus, key_n, key_o, key_p, key_q, key_r, key_rightbrace, key_s, key_semicolon, key_slash,
  key_space, key_t, key_tab, key_u, key_v, key_w, key_x, key_y, key_z,
}
use ahk_wayland.Event.{Action, command, delay, press, release, key_action}
use ahk_wayland.Ahk.Types.{
  WindowCriteria, title, class, exe, AhkAction, run, send, remap, sleep, shell, block, win_activate,
  win_close, if_win_active, win_wait_active, AhkActions, nil, cons, ElseActions, no_else,
  else_actions,
}
use ahk_wayland.Ahk.SendParser.{SendToken, key, text_token, parse_send_string}
use ahk_wayland.Ahk.SendActions.{
  shifted_keys, char_to_key_with_shift, shift_action, tap, char_actions, text_actions, press_all,
  release_all, token_actions, tokens_actions, convert_send_to_actions,
}

abbrev pub is_url : Text → Bool
is_url s = starts_with (text "http://") s || starts_with (text "https://") s

-- The command of a `Run`; there is none, and a panic, where `parts[0]` is out of range.
unfoldable pub run_command : List Text → Option (List Text)
run_command [] = none
run_command (first ∷ rest) = some (
    if is_url first
    then text "xdg-open" ∷ first ∷ []
    else text "/bin/sh" ∷ text "-c" ∷ join (text " ") (first ∷ rest) ∷ [])

unfoldable pub criteria_option : WindowCriteria → List Text
criteria_option (title s) = text "--name" ∷ s ∷ []
criteria_option (class s) = text "--class" ∷ s ∷ []
criteria_option (exe s) = text "--classname" ∷ s ∷ []

unfoldable pub build_kdotool_command : Bool → Text → WindowCriteria → List Text
build_kdotool_command kde action criteria =
    if kde then text "kdotool" ∷ text "search" ∷ (criteria_option criteria ++ action ∷ []) else []

abbrev pub or_else : Option Text → Option Text → Option Text
or_else none b = b
or_else (some a) b = some a

abbrev pub unwrap_or_default : Option Text → Text
unwrap_or_default none = []
unwrap_or_default (some a) = a

-- The answer to the n-th query, with the fallback of the KDE build.
abbrev pub active_class : World → ℕ → Text
active_class w n = unwrap_or_default (
    if w.kde
    then or_else (w.current_application n) (w.kdotool_class n)
    else w.current_application n)

abbrev pub active_title : World → ℕ → Text
active_title w n =
    unwrap_or_default
      (if w.kde then or_else (w.current_window n) (w.kdotool_name n) else w.current_window n)

unfoldable pub check_window_active : World → ℕ → WindowCriteria → Bool
check_window_active w n (exe s) = text_eq (active_class w n) s
check_window_active w n (class s) = text_eq (active_class w n) s
check_window_active w n (title s) = text_eq (active_title w n) s

-- How an execution ends: with actions, and the number of queries made so far.
pub data Exec : Type 0 where
  done : List Action → ℕ → Exec
  panic : Exec
  out_of_fuel : Exec

abbrev pub prepend : List Action → Exec → Exec
prepend xs (done ys n) = done (xs ++ ys) n
prepend xs panic = panic
prepend xs out_of_fuel = out_of_fuel

abbrev pub and_then : Exec → (ℕ → Exec) → Exec
and_then (done xs n) k = prepend xs (k n)
and_then panic k = panic
and_then out_of_fuel k = out_of_fuel

abbrev pub command_or_panic : Option (List Text) → ℕ → Exec
command_or_panic none n = panic
command_or_panic (some cmd) n = done (command cmd ∷ []) n

-- `for attempt in 0..max_attempts`: it gives up after the last attempt.
unfoldable pub wait_attempts : World → WindowCriteria → ℕ → ℕ → Exec
wait_attempts w criteria zero n = done [] n
wait_attempts w criteria (suc attempts) n =
    let later = wait_attempts w criteria attempts (n + 1) in
    if check_window_active w n criteria then done [] (n + 1) else later

-- The `loop` of a wait with no timeout.
unfoldable pub wait_forever : World → WindowCriteria → ℕ → ℕ → Exec
wait_forever w criteria zero n = out_of_fuel
wait_forever w criteria (suc fuel) n =
    let later = wait_forever w criteria fuel (n + 1) in
    if check_window_active w n criteria then done [] (n + 1) else later

abbrev pub poll_interval_ms : ℕ
poll_interval_ms = 50

unfoldable pub win_wait : World → ℕ → WindowCriteria → Option ℕ → ℕ → Exec
win_wait w fuel criteria (some timeout) n = wait_attempts w criteria (timeout / poll_interval_ms) n
win_wait w fuel criteria none n = wait_forever w criteria fuel n

-- `taps` with the held modifiers released before it and pressed again after it.
abbrev pub without_modifiers : List Key → List Action → List Action
without_modifiers active taps = release_all active ++ (taps ++ press_all active)

abbrev pub taps : List Key → List Action
taps [] = []
taps (k ∷ ks) = tap k ++ taps ks

-- `execute_into`: `active` is `active_virtual_modifiers`, and the actions are appended.
unfoldable mutual
  pub execute_into : World → List Key → ℕ → AhkAction → ℕ → Exec
  execute_into w active fuel (run parts) n = command_or_panic (run_command parts) n
  execute_into w active fuel (send keys) n =
      done (without_modifiers active (convert_send_to_actions w.to_lowercase keys)) n
  execute_into w active fuel (remap target_keys) n =
      done (without_modifiers active (taps target_keys)) n
  execute_into w active fuel (sleep ms) n = done (delay ms ∷ []) n
  execute_into w active fuel (shell script) n =
      done (command (text "/bin/sh" ∷ text "-c" ∷ script ∷ []) ∷ []) n
  execute_into w active fuel (block actions) n = execute_all w active fuel actions n
  execute_into w active fuel (win_activate criteria) n =
      done (command (build_kdotool_command w.kde (text "windowactivate") criteria) ∷ []) n
  execute_into w active fuel (win_close criteria) n =
      done (command (build_kdotool_command w.kde (text "windowclose") criteria) ∷ []) n
  execute_into w active fuel (if_win_active criteria then_actions els) n =
      let chosen = execute_all w active fuel then_actions (n + 1) in
      let otherwise = execute_else w active fuel els (n + 1) in
      if check_window_active w n criteria then chosen else otherwise
  execute_into w active fuel (win_wait_active criteria timeout_ms) n =
      win_wait w fuel criteria timeout_ms n

  pub execute_all : World → List Key → ℕ → AhkActions → ℕ → Exec
  execute_all w active fuel nil n = done [] n
  execute_all w active fuel (cons a xs) n =
      and_then (execute_into w active fuel a n) (λ n'. execute_all w active fuel xs n')

  pub execute_else : World → List Key → ℕ → ElseActions → ℕ → Exec
  execute_else w active fuel no_else n = done [] n
  execute_else w active fuel (else_actions xs) n = execute_all w active fuel xs n

-- `AhkInterpreter::execute`, after `set_virtual_modifiers`.
unfoldable pub execute : World → List Key → ℕ → AhkAction → ℕ → Exec
execute w active fuel action n = execute_into w active fuel action n
