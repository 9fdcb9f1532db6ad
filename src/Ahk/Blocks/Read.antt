-- ===== src/Ahk/Blocks/Read.antt =====
-- ahk/parser.rs: which actions the lines of a block come to, and where the block ends.
use ahk_wayland.Prelude.{
  ◌==◌, trim_end_matches, ℕ, zero, suc, length-append, ◌<◌, ◌≡◌, refl, ap, ◌∙◌, Bool, true, false,
  List, [], ◌∷◌, ◌++◌, Text, text, text_eq, trim, ends_with, length, append_assoc, append-nil,
  arith,
}
use ahk_wayland.Ahk.Types.{AhkAction}
use ahk_wayland.Ahk.ActionParser.{parse_action}
use ahk_wayland.Ahk.Blocks.{
  Block, Line, skipped, closing, other, shell_line, line_kind, first_shell_line, shell_of_lines,
  shell_of, shell_lines, shell_block, turn, statements,
}
use ahk_wayland.Ahk.Parsed.{ok, err}

-- Lines of a script: none is a closing brace.
abbrev pub AreScript : List Text → Type 0
AreScript [] = Unit
AreScript (l ∷ ls) = (text_eq (trim l) (text "}") ≡ false) × AreScript ls

-- The lines of a block with no `If` and no further braces, and the actions they come to: lines that
-- are skipped, actions, lines that are no action, and scripts on one line or over several.
pub data Body (to_lowercase : Text → Text) : List Text → List AhkAction → Type 0 where
  empty : Body to_lowercase [] []
  skip :
      (l : Text) (ls : List Text) (acts : List AhkAction)
      → line_kind (trim l) ≡ skipped
      → Body to_lowercase ls acts
      → Body to_lowercase (l ∷ ls) acts
  act :
      (l : Text) (a : AhkAction) (ls : List Text) (acts : List AhkAction)
      → line_kind (trim l) ≡ other
      → parse_action to_lowercase (trim l) ≡ ok a
      → Body to_lowercase ls acts
      → Body to_lowercase (l ∷ ls) (a ∷ acts)
  unknown :
      (l : Text) (ls : List Text) (acts : List AhkAction)
      → line_kind (trim l) ≡ other
      → parse_action to_lowercase (trim l) ≡ err
      → Body to_lowercase ls acts
      → Body to_lowercase (l ∷ ls) acts
  script :
      (l first : Text) (lines : List Text) (end : Text) (ls : List Text) (acts : List AhkAction)
      → line_kind (trim l) ≡ shell_line first
      → ends_with (text "}") first ≡ false
      → AreScript lines
      → text_eq (trim end) (text "}") ≡ true
      → Body to_lowercase ls acts
      → Body to_lowercase
          (l ∷ (lines ++ end ∷ ls))
          (shell_of_lines (first_shell_line first ++ lines) ++ acts)
  one_line :
      (l first : Text) (ls : List Text) (acts : List AhkAction)
      → line_kind (trim l) ≡ shell_line first
      → ends_with (text "}") first ≡ true
      → Body to_lowercase ls acts
      → Body to_lowercase
          (l ∷ ls)
          (shell_of (trim (trim_end_matches (λ c. c == b'}') first)) ++ acts)

shell_lines-read :
    (lines : List Text) (end : Text) (rest : List Text)
    → AreScript lines
    → text_eq (trim end) (text "}") ≡ true
    → shell_lines (lines ++ end ∷ rest) ≡ (lines, rest)
unfolding shell_lines
shell_lines-read [] end rest h e = rw e refl
shell_lines-read (l ∷ lines) end rest h e = rw (h.0, shell_lines-read lines end rest h.1 e) refl

pub shell_block-read :
    (first : Text) (lines : List Text) (end : Text) (rest : List Text)
    → ends_with (text "}") first ≡ false
    → AreScript lines
    → text_eq (trim end) (text "}") ≡ true
    → shell_block first (lines ++ end ∷ rest)
      ≡ (shell_of_lines (first_shell_line first ++ lines), rest)
unfolding shell_block
shell_block-read first lines end rest one h e = rw (one, shell_lines-read lines end rest h e) refl

pub shell_block-one_line :
    (first : Text) (ls : List Text)
    → ends_with (text "}") first ≡ true
    → shell_block first ls ≡ (shell_of (trim (trim_end_matches (λ c. c == b'}') first)), ls)
unfolding shell_block
shell_block-one_line first ls one = rw one refl

module _ (to_lowercase : Text → Text) (keep : Bool) where
  -- A turn on a line whose kind is known.
  pub step :
      (fuel depth : ℕ) (acts : List AhkAction) (l : Text) (ls : List Text) (k : Line)
      → line_kind (trim l) ≡ k
      → statements (suc fuel) to_lowercase keep depth acts (l ∷ ls)
        ≡ turn to_lowercase keep
            (statements fuel to_lowercase true 1 [])
            (statements fuel to_lowercase keep)
            k
            (trim l)
            depth
            acts
            ls
  unfolding statements
  step fuel depth acts l ls k e =
      ap
        (λ (k' : Line).
          turn to_lowercase keep (statements fuel to_lowercase true 1 [])
            (statements fuel to_lowercase keep) k' (trim l) depth acts ls)
        e

  -- The block is read up to its closing brace, and not further.
  pub statements-Body :
      (fuel : ℕ) (acts before : List AhkAction) (ls : List Text) (end : Text) (rest : List Text)
      → Body to_lowercase ls acts
      → line_kind (trim end) ≡ closing
      → length ls < fuel
      → statements fuel to_lowercase keep 1 before (ls ++ end ∷ rest) ≡ ok (before ++ acts, rest)
  statements-Body zero acts before ls end rest b e h = absurd (omega arith)
  statements-Body (suc fuel) acts before ls end rest empty e h =
      step fuel 1 before end rest closing e ∙ rw (append-nil before) refl
  statements-Body (suc fuel) acts before ls end rest (skip l ls' acts' k b) e h =
      step fuel 1 before l (ls' ++ end ∷ rest) skipped k
      ∙ statements-Body fuel acts before ls' end rest b e (omega arith)
  statements-Body (suc fuel) acts before ls end rest (act l a ls' acts' k p b) e h =
      step fuel 1 before l (ls' ++ end ∷ rest) other k
      ∙ rw p (
          statements-Body fuel acts' (before ++ a ∷ []) ls' end rest b e (omega arith)
          ∙ ap (λ (xs : List AhkAction). ok (xs, rest)) (append_assoc before (a ∷ []) acts'))
  statements-Body (suc fuel) acts before ls end rest (unknown l ls' acts' k p b) e h =
      step fuel 1 before l (ls' ++ end ∷ rest) other k
      ∙ rw (p, append-nil before) (statements-Body fuel acts before ls' end rest b e (omega arith))
  statements-Body (suc fuel) acts before ls end rest
        (script l first lines end' ls' acts' k one s e' b) e h =
      let added = shell_of_lines (first_shell_line first ++ lines) in
      ap (λ (more : List Text). statements (suc fuel) to_lowercase keep 1 before (l ∷ more))
        (append_assoc lines (end' ∷ ls') (end ∷ rest))
      ∙ step fuel 1 before l (lines ++ end' ∷ (ls' ++ end ∷ rest)) (shell_line first) k
      ∙ ap (λ (r : Block). statements fuel to_lowercase keep 1 (before ++ r.0) r.1)
          (shell_block-read first lines end' (ls' ++ end ∷ rest) one s e')
      ∙ statements-Body fuel acts' (before ++ added) ls' end rest b e
          (omega (arith, length-append lines (end' ∷ ls')))
      ∙ ap (λ (xs : List AhkAction). ok (xs, rest)) (append_assoc before added acts')
  statements-Body (suc fuel) acts before ls end rest (one_line l first ls' acts' k one b) e h =
      let added = shell_of (trim (trim_end_matches (λ c. c == b'}') first)) in
      step fuel 1 before l (ls' ++ end ∷ rest) (shell_line first) k
      ∙ ap (λ (r : Block). statements fuel to_lowercase keep 1 (before ++ r.0) r.1)
          (shell_block-one_line first (ls' ++ end ∷ rest) one)
      ∙ statements-Body fuel acts' (before ++ added) ls' end rest b e (omega arith)
      ∙ ap (λ (xs : List AhkAction). ok (xs, rest)) (append_assoc before added acts')
