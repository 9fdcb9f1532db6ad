-- ===== src/Ahk/Blocks/Refused.antt =====
-- ahk/parser.rs, parse_multiline_hotkey: an `If` line in a block.
use ahk_wayland.Prelude.{
  ℕ, suc, ◌≡◌, refl, ap, ◌∙◌, Bool, true, none, List, [], ◌∷◌, Text, text, trim, strip_prefix, ◌++◌,
  zero, ◌<◌, length, length-append, arith, append_assoc,
}
use ahk_wayland.Ahk.Types.{AhkAction}
use ahk_wayland.Ahk.ActionParser.Errors.{parse_window_criteria-err}
use ahk_wayland.Ahk.Blocks.{
  Line, Block, condition, line_kind, if_block, statements, turn, skipped, other, shell_line,
}
use ahk_wayland.Ahk.Parsed.{Parsed, err}
use ahk_wayland.Ahk.Blocks.Read.{Body, step, shell_block-read, shell_block-one_line}

-- A condition that is not written as a condition once more.
abbrev pub IsRefused : Text → Type 0
IsRefused s =
    (strip_prefix (text "WinActive(") (trim s) ≡ none)
    × (strip_prefix (text "!WinActive(") (trim s) ≡ none)

module _ (to_lowercase : Text → Text) (negated : Bool) (criteria : Text) (same_line : Bool)
    (h : IsRefused criteria) where
  if_block-err :
      (keep : Bool) (nested : List Text → Parsed Block) (ls : List Text)
      → if_block to_lowercase keep nested negated criteria same_line ls ≡ err
  unfolding if_block
  if_block-err keep nested ls = rw (parse_window_criteria-err criteria h.0 h.1) refl

  statements-err :
      (fuel : ℕ) (keep : Bool) (depth : ℕ) (acts : List AhkAction) (l : Text) (ls : List Text)
      → line_kind (trim l) ≡ condition negated criteria same_line
      → statements (suc fuel) to_lowercase keep depth acts (l ∷ ls) ≡ err
  unfolding statements
  statements-err fuel keep depth acts l ls e =
      ap
        (λ (k : Line).
          turn to_lowercase keep (statements fuel to_lowercase true 1 [])
            (statements fuel to_lowercase keep) k (trim l) depth acts ls)
        e
      ∙ rw (if_block-err keep (statements fuel to_lowercase true 1 []) ls) refl

  -- It may come behind any actions and scripts.
  pub statements-Body_err :
      (fuel : ℕ) (keep : Bool) (acts before : List AhkAction) (body : List Text) (l : Text)
      (ls : List Text)
      → Body to_lowercase body acts
      → line_kind (trim l) ≡ condition negated criteria same_line
      → length body < fuel
      → statements fuel to_lowercase keep 1 before (body ++ l ∷ ls) ≡ err
  statements-Body_err zero keep acts before body l ls b e le = absurd (omega arith)
  statements-Body_err (suc fuel) keep acts before body l ls Body.empty e le =
      statements-err fuel keep 1 before l ls e
  statements-Body_err (suc fuel) keep acts before body l ls (Body.skip x xs acts' k b) e le =
      step to_lowercase keep fuel 1 before x (xs ++ l ∷ ls) skipped k
      ∙ statements-Body_err fuel keep acts before xs l ls b e (omega arith)
  statements-Body_err (suc fuel) keep acts before body l ls (Body.act x a xs acts' k p b) e le =
      step to_lowercase keep fuel 1 before x (xs ++ l ∷ ls) other k
      ∙ rw p (statements-Body_err fuel keep acts' (before ++ a ∷ []) xs l ls b e (omega arith))
  statements-Body_err (suc fuel) keep acts before body l ls (Body.unknown x xs acts' k p b) e le =
      step to_lowercase keep fuel 1 before x (xs ++ l ∷ ls) other k
      ∙ rw p (statements-Body_err fuel keep acts (before ++ []) xs l ls b e (omega arith))
  statements-Body_err (suc fuel) keep acts before body l ls
        (Body.script x first inside end xs acts' k one s e' b) e le =
      ap (λ (more : List Text). statements (suc fuel) to_lowercase keep 1 before (x ∷ more))
        (append_assoc inside (end ∷ xs) (l ∷ ls))
      ∙ step to_lowercase keep fuel 1 before x (inside ++ end ∷ (xs ++ l ∷ ls)) (shell_line first) k
      ∙ ap (λ (r : Block). statements fuel to_lowercase keep 1 (before ++ r.0) r.1)
          (shell_block-read first inside end (xs ++ l ∷ ls) one s e')
      ∙ statements-Body_err fuel keep acts' _ xs l ls b e
          (omega (arith, length-append inside (end ∷ xs)))
  statements-Body_err (suc fuel) keep acts before body l ls (Body.one_line x first xs acts' k one b)
        e le =
      step to_lowercase keep fuel 1 before x (xs ++ l ∷ ls) (shell_line first) k
      ∙ ap (λ (r : Block). statements fuel to_lowercase keep 1 (before ++ r.0) r.1)
          (shell_block-one_line first (xs ++ l ∷ ls) one)
      ∙ statements-Body_err fuel keep acts' _ xs l ls b e (omega arith)
