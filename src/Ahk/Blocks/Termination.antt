-- ===== src/Ahk/Blocks/Termination.antt =====
-- ahk/parser.rs: the loops over the lines of a block end, with a unit of fuel for each line.
use ahk_wayland.Prelude.{
  ℕ, zero, suc, ◌+◌, ◌-◌, ◌≤◌, Bool, true, false, Option, none, some, List, [], ◌∷◌, ◌++◌, Text,
  text, text_eq, trim, length, arith, if◌then◌else◌, ◌==◌,
}
use ahk_wayland.Ahk.Types.{AhkAction}
use ahk_wayland.Ahk.Criteria.{parse_window_criteria, criteria_or_err}
use ahk_wayland.Ahk.Parsed.{Parsed, ok, err, Ensures, Ensures-bind, Ensures-mono, HasFuel}
use ahk_wayland.Ahk.Blocks.{
  Block, Line, skipped, closing, opening, condition, shell_line, other, Next, no_line, else_line,
  other_line, next_line, brace_line, behind_if, Tail, if_block, shell_lines, shell_block, turn,
  statements, line_kind,
}

pub criteria_or_err-HasFuel : (s : Option Text) → HasFuel (criteria_or_err s)
criteria_or_err-HasFuel none = tt
criteria_or_err-HasFuel (some s) = tt

pub parse_window_criteria-HasFuel : (s : Text) → HasFuel (parse_window_criteria s)
unfolding parse_window_criteria
parse_window_criteria-HasFuel s = criteria_or_err-HasFuel _

-- At most `n` lines are left.
abbrev pub Leaves {ℓ} : {A : Type ℓ} → ℕ → A × List Text → Type 0
Leaves n r = length r.1 ≤ n

next_line-length : (ls : List Text) → Leaves (length ls) (next_line ls)
unfolding next_line
next_line-length [] = omega arith
next_line-length (l ∷ ls) = let ih = next_line-length ls in ground arith

shell_lines-length : (ls : List Text) → Leaves (length ls) (shell_lines ls)
unfolding shell_lines
shell_lines-length [] = omega arith
shell_lines-length (l ∷ ls) = let ih = shell_lines-length ls in ground arith

shell_block-length : (first : Text) (ls : List Text) → Leaves (length ls) (shell_block first ls)
unfolding shell_block
shell_block-length first ls = let ih = shell_lines-length ls in ground arith

brace_line-length :
    (same_line : Bool) (ls : List Text)
    → Ensures (λ (ls' : List Text). length ls' ≤ length ls) (brace_line same_line ls)
unfolding brace_line
brace_line-length true ls = omega arith
brace_line-length false [] = omega arith
brace_line-length false (l ∷ ls) =
    elim (text_eq (trim l) (text "{"))
      as (λ b.
        Ensures (λ (ls' : List Text). length ls' ≤ suc (length ls)) (if b then ok ls else err)) [
          | true ↦ omega arith
          | false ↦ tt
        ]

-- What a loop over lines promises: enough fuel, and no more lines than it was given.
abbrev pub Consumes {ℓ} : {A : Type ℓ} → ℕ → (List Text → Parsed (A × List Text)) → Type 0
Consumes n f = (ls : List Text) → length ls ≤ n → Ensures (Leaves (length ls)) (f ls)

behind_if-Ensures :
    (to_lowercase : Text → Text) (keep : Bool) (nested : List Text → Parsed Block) (n : ℕ)
    (next : Next × List Text)
    → Consumes n nested
    → length next.1 ≤ n
    → Ensures (λ (r : Tail). length r.1.1 ≤ length next.1) (behind_if to_lowercase keep nested next)
behind_if-Ensures to_lowercase keep nested n (no_line, ls) h p = omega arith
behind_if-Ensures to_lowercase keep nested n (other_line t, ls) h p = omega arith
behind_if-Ensures to_lowercase keep nested n (else_line has_brace, ls) h p =
    Ensures-bind (λ ls1. length ls1 ≤ length ls) (λ (r : Tail). length r.1.1 ≤ length ls)
      (brace_line has_brace ls) _ (brace_line-length has_brace ls)
      (λ ls1 q.
        Ensures-bind (Leaves (length ls1)) (λ (r : Tail). length r.1.1 ≤ length ls) (nested ls1) _
          (h ls1 (omega arith)) (λ r q2. omega arith))

if_block-Ensures :
    (to_lowercase : Text → Text) (keep : Bool) (nested : List Text → Parsed Block) (n : ℕ)
    (negated : Bool) (criteria : Text) (same_line : Bool)
    → Consumes n nested
    → Consumes n (if_block to_lowercase keep nested negated criteria same_line)
unfolding if_block
if_block-Ensures to_lowercase keep nested n negated criteria same_line h ls p =
    Ensures-bind (λ c. Unit) (Leaves (length ls)) (parse_window_criteria criteria) _
      (parse_window_criteria-HasFuel criteria)
      (λ c u.
        Ensures-bind (λ ls1. length ls1 ≤ length ls) (Leaves (length ls)) (brace_line same_line ls)
          _ (brace_line-length same_line ls)
          (λ ls1 q1.
            Ensures-bind (Leaves (length ls1)) (Leaves (length ls)) (nested ls1) _
              (h ls1 (omega arith))
              (λ r q2.
                Ensures-bind (λ (t : Tail). length t.1.1 ≤ length (next_line r.1).1)
                  (Leaves (length ls)) (behind_if to_lowercase keep nested (next_line r.1)) _
                  (behind_if-Ensures to_lowercase keep nested n (next_line r.1) h
                    (omega (arith, next_line-length r.1)))
                  (λ t q3. omega (arith, next_line-length r.1)))))

turn-Ensures :
    (to_lowercase : Text → Text) (keep : Bool) (nested : List Text → Parsed Block)
    (go : ℕ → List AhkAction → List Text → Parsed Block) (n : ℕ) (line : Line) (t : Text)
    (depth : ℕ) (acts : List AhkAction)
    → Consumes n nested
    → ((depth : ℕ) (acts : List AhkAction) → Consumes n (go depth acts))
    → Consumes n (turn to_lowercase keep nested go line t depth acts)
turn-Ensures to_lowercase keep nested go n skipped t depth acts h k ls p = k depth acts ls p
turn-Ensures to_lowercase keep nested go n closing t depth acts h k ls p =
    elim (depth == 1)
      as (λ b. Ensures (Leaves (length ls)) (if b then ok (acts, ls) else go (depth - 1) acts ls)) [
        | true ↦ omega arith
        | false ↦ k (depth - 1) acts ls p
      ]
turn-Ensures to_lowercase keep nested go n opening t depth acts h k ls p = k (depth + 1) acts ls p
turn-Ensures to_lowercase keep nested go n (condition negated criteria same_line) t depth acts h k
      ls p =
    Ensures-bind (Leaves (length ls)) (Leaves (length ls))
      (if_block to_lowercase keep nested negated criteria same_line ls) _
      (if_block-Ensures to_lowercase keep nested n negated criteria same_line h ls p)
      (λ r q.
        Ensures-mono (Leaves (length r.1)) (Leaves (length ls)) (go depth (acts ++ r.0) r.1)
          (λ r2 q2. omega arith) (k depth (acts ++ r.0) r.1 (omega arith)))
turn-Ensures to_lowercase keep nested go n (shell_line first) t depth acts h k ls p =
    let q = shell_block-length first ls in
    Ensures-mono (Leaves (length (shell_block first ls).1)) (Leaves (length ls))
      (go depth (acts ++ (shell_block first ls).0) (shell_block first ls).1) (λ r2 q2. omega arith)
      (k depth (acts ++ (shell_block first ls).0) (shell_block first ls).1 (omega arith))
turn-Ensures to_lowercase keep nested go n other t depth acts h k ls p = k depth _ ls p

-- A unit of fuel for each line, and one more.
pub statements-Ensures :
    (n : ℕ) (to_lowercase : Text → Text) (keep : Bool) (depth : ℕ) (acts : List AhkAction)
    → Consumes n (statements (suc n) to_lowercase keep depth acts)
unfolding statements
statements-Ensures n to_lowercase keep depth acts [] p = omega arith
statements-Ensures zero to_lowercase keep depth acts (l ∷ ls) p = absurd (omega arith)
statements-Ensures (suc n) to_lowercase keep depth acts (l ∷ ls) p =
    Ensures-mono (Leaves (length ls)) (Leaves (suc (length ls))) _ (λ r q. omega arith)
      (turn-Ensures to_lowercase keep (statements (suc n) to_lowercase true 1 [])
        (statements (suc n) to_lowercase keep) n (line_kind (trim l)) (trim l) depth acts
        (statements-Ensures n to_lowercase true 1 [])
        (λ depth' acts'. statements-Ensures n to_lowercase keep depth' acts') ls (omega arith))
