-- ===== src/Config/Shell.antt =====
-- config/mod.rs: the actions of an AutoHotkey file that need no interpreter, as shell commands.
-- `none` is the panic of `parts[0]` on a `Run` with no parts. The debug output is left out.
use ahk_wayland.Prelude.{
  ℕ, Bool, Option, none, some, List, [], ◌∷◌, ◌++◌, Text, text, join, replace_char, if◌then◌else◌,
}
use ahk_wayland.Ahk.Types.{
  WindowCriteria, title, class, exe, AhkAction, run, send, remap, sleep, shell, block, win_activate,
  win_close, if_win_active, win_wait_active, AhkActions, nil, cons, ElseActions, no_else,
  else_actions,
}
use ahk_wayland.Ahk.Interpreter.{is_url, criteria_option}

-- cfg(feature = "kde"), and how `f64` shows a number of milliseconds divided by 1000.
pub record ShellLibrary : Type 0 where
  pub kde : Bool
  pub seconds : ℕ → Text

-- `build_kdotool_command`, in both builds.
unfoldable pub kdotool_command : Bool → Text → WindowCriteria → List Text
unfolding criteria_option
kdotool_command kde action criteria =
    if kde then text "kdotool" ∷ text "search" ∷ (criteria_option criteria ++ action ∷ []) else []

-- `replace("'", "'\\''")`, and quotes around it.
abbrev pub single_quoted : Text → Text
single_quoted s = text "'" ++ (replace_char b'\'' (text "'\\''") s ++ text "'")

abbrev pub active_test : Text → Text → Text
active_test question s =
    text "test \"$(kdotool getactivewindow "
    ++ (question ++ (text " 2>/dev/null || echo '__NONE__')\" = " ++ single_quoted s))

abbrev pub window_test : WindowCriteria → Text
window_test (exe s) = active_test (text "getwindowclassname") s
window_test (class s) = active_test (text "getwindowclassname") s
window_test (title s) = active_test (text "getwindowname") s

-- `build_kdotool_shell` for "getactivewindow", the only action that it is called with.
unfoldable pub build_kdotool_shell : Bool → WindowCriteria → Text
build_kdotool_shell kde criteria = if kde then window_test criteria else text "false"

abbrev pub script_line : Text → Text
script_line s = text "  " ++ (s ++ text "\n")

abbrev pub run_line : List Text → Option Text
run_line [] = none
run_line (first ∷ rest) = some (
    if is_url first
    then script_line (text "xdg-open " ++ single_quoted first)
    else script_line (join (text " ") (first ∷ rest)))

abbrev pub append_script : Option Text → Option Text → Option Text
append_script none later = none
append_script (some s) none = none
append_script (some s) (some t) = some (s ++ t)

-- The arms of `actions_to_shell_script`, and its loop.
unfoldable mutual
  unfolding kdotool_command

  pub action_script : ShellLibrary → AhkAction → Option Text
  action_script lib (run parts) = run_line parts
  action_script lib (shell script) = some (script_line script)
  action_script lib (sleep ms) = some (script_line (text "sleep " ++ lib.seconds ms))
  action_script lib (win_activate criteria) =
      some
        (script_line (join (text " ") (kdotool_command lib.kde (text "windowactivate") criteria)))
  action_script lib (win_close criteria) =
      some (script_line (join (text " ") (kdotool_command lib.kde (text "windowclose") criteria)))
  action_script lib (send keys) = some (text "  # Send command not supported in shell context\n")
  action_script lib (block actions) = actions_to_shell_script lib actions
  action_script lib (remap target_keys) = some (text "  # Unsupported action in shell context\n")
  action_script lib (if_win_active criteria then_actions els) =
      some (text "  # Unsupported action in shell context\n")
  action_script lib (win_wait_active criteria timeout_ms) =
      some (text "  # Unsupported action in shell context\n")

  pub actions_to_shell_script : ShellLibrary → AhkActions → Option Text
  actions_to_shell_script lib nil = some []
  actions_to_shell_script lib (cons a actions) =
      append_script (action_script lib a) (actions_to_shell_script lib actions)

abbrev pub else_script : ShellLibrary → ElseActions → Option Text
else_script lib no_else = some []
else_script lib (else_actions actions) =
    append_script (some (text "\nelse\n")) (actions_to_shell_script lib actions)

-- The script of an `If`.
unfoldable pub if_script : ShellLibrary → WindowCriteria → AhkActions → ElseActions → Option Text
unfolding build_kdotool_shell actions_to_shell_script
if_script lib criteria then_actions els =
    append_script
      (append_script
        (some (text "if " ++ (build_kdotool_shell lib.kde criteria ++ text " ; then\n")))
        (append_script (actions_to_shell_script lib then_actions) (else_script lib els)))
      (some (text "\nfi"))
