-- ===== src/Ahk/Hotkeys/Termination.antt =====
-- ahk/parser.rs: the parts of a hotkey are read without fuel; its block takes a unit for each line.
use ahk_wayland.Prelude.{
  ℕ, suc, ◌≤◌, Bool, false, Option, none, some, List, [], Text, text, trim, length, arith,
  split_once, parse_u64,
}
use ahk_wayland.Key.{Key}
use ahk_wayland.Ahk.Types.{AhkAction, WindowCriteria}
use ahk_wayland.Ahk.PassThrough.{pass_through}
use ahk_wayland.Ahk.Criteria.{parse_window_criteria}
use ahk_wayland.Ahk.KeyCombo.{Combo, combo_of, strip_prefixes, strip_modifiers, parse_key_combo}
use ahk_wayland.Ahk.KeyNames.{string_to_key}
use ahk_wayland.Ahk.ActionParser.{
  Arm, or_arm, on_text, window_action, wait_action, wait_parts, first_part, run_action,
  send_text_action, sleep_for, sleep_arm, key_or_err, or_key, window_arms, run_arms, send_arms,
  parse_action,
}
use ahk_wayland.Ahk.Blocks.{statements}
use ahk_wayland.Ahk.Blocks.Termination.{parse_window_criteria-HasFuel, Leaves, statements-Ensures}
use ahk_wayland.Ahk.Hotkeys.{
  in_context, hotkey_parts, before_comment, multiline_parts, parse_hotkey, parse_multiline_hotkey,
}
use ahk_wayland.Ahk.Parsed.{Parsed, ◌>>=◌, ok_or_err, Ensures, Ensures-bind, HasFuel}

HasFuel-bind {ℓ κ} :
    {A : Type ℓ} {B : Type κ} (m : Parsed A) (f : A → Parsed B)
    → HasFuel m
    → ((a : A) → HasFuel (f a))
    → HasFuel (m >>= f)
HasFuel-bind m f h k = Ensures-bind (λ a. Unit) (λ b. Unit) m f h (λ a u. k a)

ok_or_err-HasFuel {ℓ} : {A : Type ℓ} (o : Option A) → HasFuel (ok_or_err o)
ok_or_err-HasFuel none = tt
ok_or_err-HasFuel (some a) = tt

combo_of-HasFuel :
    (to_lowercase : Text → Text) (wildcard : Bool) (ks : List Key) (rest : Text)
    (parts : Option (Text × Text))
    → HasFuel (combo_of to_lowercase wildcard ks rest parts)
combo_of-HasFuel to_lowercase wildcard ks rest none =
    HasFuel-bind (ok_or_err (string_to_key to_lowercase (trim rest))) _ (ok_or_err-HasFuel _)
      (λ k. tt)
combo_of-HasFuel to_lowercase wildcard ks rest (some (a, b)) =
    HasFuel-bind (ok_or_err (string_to_key to_lowercase (trim b))) _ (ok_or_err-HasFuel _) (λ k. tt)

parse_key_combo-HasFuel :
    (to_lowercase : Text → Text) (combo : Text) → HasFuel (parse_key_combo to_lowercase combo)
unfolding parse_key_combo
parse_key_combo-HasFuel to_lowercase combo =
    combo_of-HasFuel to_lowercase (strip_prefixes false combo).0
      (strip_modifiers (strip_prefixes false combo).1).0
      (strip_modifiers (strip_prefixes false combo).1).1 _

-- An arm that applies has fuel.
abbrev ArmHasFuel : Arm → Type 0
ArmHasFuel none = Unit
ArmHasFuel (some r) = HasFuel r

or_arm-ArmHasFuel : (a b : Arm) → ArmHasFuel a → ArmHasFuel b → ArmHasFuel (or_arm a b)
or_arm-ArmHasFuel none b h k = k
or_arm-ArmHasFuel (some r) b h k = h

on_text-ArmHasFuel :
    (f : Text → Parsed AhkAction) (s : Option Text)
    → ((t : Text) → HasFuel (f t))
    → ArmHasFuel (on_text f s)
on_text-ArmHasFuel f none h = tt
on_text-ArmHasFuel f (some t) h = h t

window_action-HasFuel : (f : WindowCriteria → AhkAction) (s : Text) → HasFuel (window_action f s)
unfolding window_action
window_action-HasFuel f s =
    HasFuel-bind (parse_window_criteria s) _ (parse_window_criteria-HasFuel s) (λ c. tt)

wait_action-HasFuel : (s : Text) → HasFuel (wait_action s)
unfolding wait_action
wait_action-HasFuel s =
    HasFuel-bind (parse_window_criteria (first_part (wait_parts s))) _
      (parse_window_criteria-HasFuel (first_part (wait_parts s))) (λ c. tt)

run_action-HasFuel : (s : Text) → HasFuel (run_action s)
unfolding run_action
run_action-HasFuel s = tt

send_text_action-HasFuel : (s : Text) → HasFuel (send_text_action s)
unfolding send_text_action
send_text_action-HasFuel s = tt

sleep_arm-ArmHasFuel : (s : Option Text) → ArmHasFuel (sleep_arm s)
sleep_arm-ArmHasFuel none = tt
sleep_arm-ArmHasFuel (some s) = helper (parse_u64 (trim s))
  where
    helper : (n : Option ℕ) → ArmHasFuel (sleep_for n)
    helper none = tt
    helper (some n) = tt

window_arms-ArmHasFuel : (s : Text) → ArmHasFuel (window_arms s)
window_arms-ArmHasFuel s =
    search (or_arm-ArmHasFuel, on_text-ArmHasFuel, window_action-HasFuel, wait_action-HasFuel)

run_arms-ArmHasFuel : (s : Text) → ArmHasFuel (run_arms s)
run_arms-ArmHasFuel s = search (or_arm-ArmHasFuel, on_text-ArmHasFuel, run_action-HasFuel)

send_arms-ArmHasFuel : (s : Text) → ArmHasFuel (send_arms s)
send_arms-ArmHasFuel s =
    search (or_arm-ArmHasFuel, on_text-ArmHasFuel, send_text_action-HasFuel) depth 12

key_or_err-HasFuel : (k : Option Key) → HasFuel (key_or_err k)
key_or_err-HasFuel none = tt
key_or_err-HasFuel (some k) = tt

or_key-HasFuel :
    (to_lowercase : Text → Text) (s : Text) (a : Arm)
    → ArmHasFuel a
    → HasFuel (or_key to_lowercase s a)
or_key-HasFuel to_lowercase s none h = key_or_err-HasFuel _
or_key-HasFuel to_lowercase s (some r) h = h

parse_action-HasFuel :
    (to_lowercase : Text → Text) (s : Text) → HasFuel (parse_action to_lowercase s)
unfolding parse_action
parse_action-HasFuel to_lowercase s = search (
  or_key-HasFuel, or_arm-ArmHasFuel, window_arms-ArmHasFuel, run_arms-ArmHasFuel,
  send_arms-ArmHasFuel, sleep_arm-ArmHasFuel,
)

in_context-HasFuel :
    (context : Option Text) (combo : Combo) (action : AhkAction)
    → HasFuel (in_context context combo action)
unfolding in_context
in_context-HasFuel none combo action = tt
in_context-HasFuel (some context) combo action =
    HasFuel-bind (parse_window_criteria context) _ (parse_window_criteria-HasFuel context) (λ c.
      HasFuel-bind (ok_or_err (pass_through combo.modifiers combo.key)) _ (ok_or_err-HasFuel _)
        (λ s. tt))

hotkey_parts-HasFuel :
    (to_lowercase : Text → Text) (context : Option Text) (parts : Option (Text × Text))
    → HasFuel (hotkey_parts to_lowercase context parts)
hotkey_parts-HasFuel to_lowercase context none = tt
hotkey_parts-HasFuel to_lowercase context (some (definition, rest)) =
    HasFuel-bind (parse_key_combo to_lowercase (trim definition)) _
      (parse_key_combo-HasFuel to_lowercase _)
      (λ combo.
        HasFuel-bind
          (parse_action to_lowercase
            (before_comment (trim rest) (split_once (text " ;") (trim rest))))
          _ (parse_action-HasFuel to_lowercase _)
          (λ action.
            HasFuel-bind (in_context context combo action) _
              (in_context-HasFuel context combo action) (λ a. tt)))

pub parse_hotkey-HasFuel :
    (to_lowercase : Text → Text) (line : Text) (context : Option Text)
    → HasFuel (parse_hotkey to_lowercase line context)
unfolding parse_hotkey
parse_hotkey-HasFuel to_lowercase line context =
    hotkey_parts-HasFuel to_lowercase context (split_once (text "::") line)

multiline_parts-Ensures :
    (n : ℕ) (to_lowercase : Text → Text) (context : Option Text) (ls : List Text)
    (parts : Option (Text × Text))
    → length ls ≤ n
    → Ensures (Leaves (length ls)) (multiline_parts (suc n) to_lowercase context ls parts)
multiline_parts-Ensures n to_lowercase context ls none p = omega arith
multiline_parts-Ensures n to_lowercase context ls (some (definition, rest)) p =
    Ensures-bind (λ c. Unit) (Leaves (length ls)) (parse_key_combo to_lowercase (trim definition)) _
      (parse_key_combo-HasFuel to_lowercase _)
      (λ combo u.
        Ensures-bind (Leaves (length ls)) (Leaves (length ls))
          (statements (suc n) to_lowercase false 1 [] ls) _
          (statements-Ensures n to_lowercase false 1 [] ls p) (λ r q. q))

pub parse_multiline_hotkey-Ensures :
    (n : ℕ) (to_lowercase : Text → Text) (line : Text) (ls : List Text) (context : Option Text)
    → length ls ≤ n
    → Ensures (Leaves (length ls)) (parse_multiline_hotkey (suc n) to_lowercase line ls context)
unfolding parse_multiline_hotkey
parse_multiline_hotkey-Ensures n to_lowercase line ls context =
    multiline_parts-Ensures n to_lowercase context ls (split_once (text "::") line)
