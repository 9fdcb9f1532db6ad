-- ===== src/Ahk/ActionParser/Errors.antt =====
-- ahk/parser.rs, parse_action: when an action on a window is refused.
use ahk_wayland.Prelude.{
  ◌≡◌, refl, ap, ◌∙◌, Option, none, ◌++◌, Text, text, trim, strip_prefix, is_whitespace,
  trim_matches-between, strip_suffix-last,
}
use ahk_wayland.Ahk.Types
use ahk_wayland.Ahk.Types.{AhkAction, win_activate, win_close, win_wait_active}
use ahk_wayland.Ahk.Criteria.{behind, criteria_or_err, or_negated, parse_window_criteria}
use ahk_wayland.Ahk.ActionParser.{window_action, wait_action, wait_parts, first_part, parse_action}
use ahk_wayland.Ahk.Parsed.{Parsed, ok, err, ◌>>=◌}

-- The text is refused as a condition on windows.
pub parse_window_criteria-err :
    (s : Text)
    → strip_prefix (text "WinActive(") (trim s) ≡ none
    → strip_prefix (text "!WinActive(") (trim s) ≡ none
    → parse_window_criteria s ≡ err
unfolding parse_window_criteria
parse_window_criteria-err s h n =
    ap (λ (o : Option Text). criteria_or_err (or_negated (trim s) (behind o))) h
    ∙ ap (λ (o : Option Text). criteria_or_err (behind o)) n

-- What stands between a name of a function and the closing parenthesis.
module _ (to_lowercase : Text → Text) (c : Text) where
  activate-content :
      parse_action to_lowercase (text "WinActivate(" ++ c ++ text ")")
      ≡ window_action win_activate c
  unfolding parse_action
  activate-content =
      rw
        (
          trim_matches-between is_whitespace b'W' (text "inActivate(" ++ c) b')' refl refl,
          strip_suffix-last c b')',
        )
        refl

  close-content :
      parse_action to_lowercase (text "WinClose(" ++ c ++ text ")") ≡ window_action win_close c
  unfolding parse_action
  close-content =
      rw
        (
          trim_matches-between is_whitespace b'W' (text "inClose(" ++ c) b')' refl refl,
          strip_suffix-last c b')',
        )
        refl

  wait-content : parse_action to_lowercase (text "WinWaitActive(" ++ c ++ text ")") ≡ wait_action c
  unfolding parse_action
  wait-content =
      rw
        (
          trim_matches-between is_whitespace b'W' (text "inWaitActive(" ++ c) b')' refl refl,
          strip_suffix-last c b')',
        )
        refl

window_action-err :
    (f : Types.WindowCriteria → AhkAction) (s : Text)
    → parse_window_criteria s ≡ err
    → window_action f s ≡ err
unfolding window_action
window_action-err f s h = ap (λ (r : Parsed Types.WindowCriteria). r >>= (λ c. ok (f c))) h

wait_action-err :
    (s : Text) → parse_window_criteria (first_part (wait_parts s)) ≡ err → wait_action s ≡ err
unfolding wait_action
wait_action-err s h = rw h refl

-- A window title, class or executable between the parentheses of `WinActivate` or `WinClose`, or
-- as the first part between those of `WinWaitActive`, is refused, unless it is written as a condition
-- itself: begun with `WinActive(` or `!WinActive(`.
pub parse_action-err :
    (to_lowercase : Text → Text) (s parts : Text)
    → strip_prefix (text "WinActive(") (trim s) ≡ none
    → strip_prefix (text "!WinActive(") (trim s) ≡ none
    → strip_prefix (text "WinActive(") (trim (first_part (wait_parts parts))) ≡ none
    → strip_prefix (text "!WinActive(") (trim (first_part (wait_parts parts))) ≡ none
    → (parse_action to_lowercase (text "WinActivate(" ++ s ++ text ")") ≡ err)
      × (parse_action to_lowercase (text "WinClose(" ++ s ++ text ")") ≡ err)
      × (parse_action to_lowercase (text "WinWaitActive(" ++ parts ++ text ")") ≡ err)
parse_action-err to_lowercase s parts h n h' n' =
    let e = parse_window_criteria-err s h n in
    (
      activate-content to_lowercase s ∙ window_action-err win_activate s e,
      close-content to_lowercase s ∙ window_action-err win_close s e,
      wait-content to_lowercase parts
          ∙ wait_action-err parts (parse_window_criteria-err (first_part (wait_parts parts)) h' n'),
    )
