-- ===== src/Ahk/Blocks.antt =====
-- ahk/parser.rs, parse_block_actions and the loop of parse_multiline_hotkey: the lines between braces.
-- The two loops are alike but for the line behind an `If` block: a flag tells them apart. Each turn
-- of a loop takes a line, and costs a unit of fuel. A `}` inside further braces is no action, so it is
-- left here, where one of the loops tries to parse it. The debug output is left out.
pub mod Read
pub mod Refused
pub mod Termination
use ahk_wayland.Prelude.{
  ℕ, zero, suc, ◌+◌, ◌-◌, Bool, true, false, not, ◌&&◌, ◌||◌, Option, none, some, List, [], ◌∷◌,
  ◌++◌, Text, text, text_eq, ◌==◌, trim, trim_end_matches, strip_prefix, strip_suffix, starts_with,
  ends_with, has_char, is_empty, join, if◌then◌else◌,
}
use ahk_wayland.Ahk.Types
use ahk_wayland.Ahk.Types.{
  AhkAction, AhkActions, ElseActions, if_win_active, shell, no_else, else_actions,
}
use ahk_wayland.Ahk.Criteria.{parse_window_criteria}
use ahk_wayland.Ahk.ActionParser.{parse_action}
use ahk_wayland.Ahk.Parsed.{Parsed, ok, err, out_of_fuel, ◌>>=◌}

-- A vector of actions as it stands inside an action.
abbrev pub from_list : List AhkAction → AhkActions
from_list [] = Types.nil
from_list (a ∷ acts) = Types.cons a (from_list acts)

-- The actions so far, and the lines that are left.
abbrev pub Block : Type 0
Block = List AhkAction × List Text

abbrev pub is_skipped : Text → Bool
is_skipped t = is_empty t || starts_with (text ";") t

-- What kind of line it is, by the order of the tests.
pub data Line : Type 0 where
  skipped : Line
  closing : Line
  opening : Line
  condition : Bool → Text → Bool → Line
  shell_line : Text → Line
  other : Line

abbrev pub or_none : Option Text → Option Text → Option Text
or_none none later = later
or_none (some s) later = some s

-- The criteria of an `If`: what is behind the prefix, up to one of three endings.
abbrev pub criteria_text : Option Text → Option Text
criteria_text none = none
criteria_text (some rest) =
    or_none (strip_suffix (text "){") rest)
      (or_none (strip_suffix (text ") {") rest) (strip_suffix (text ")") rest))

abbrev pub block_on_same_line : Text → Bool
block_on_same_line t = ends_with (text "){") t || ends_with (text ") {") t

abbrev pub if_line : Text → Option (Bool × Text)
if_line t = elim (criteria_text (strip_prefix (text "If WinActive(") t)) [
  | some s ↦ some (false, s)
  | none ↦ elim (criteria_text (strip_prefix (text "If !WinActive(") t)) [
    | some s ↦ some (true, s)
    | none ↦ none
  ]
]

abbrev pub shell_prefix : Text → Option Text
shell_prefix t = or_none (strip_prefix (text "Shell{") t) (strip_prefix (text "shell{") t)

abbrev pub shell_or_other : Option Text → Line
shell_or_other none = other
shell_or_other (some first) = shell_line (trim first)

abbrev pub or_condition : Text → Option (Bool × Text) → Line
or_condition t none = shell_or_other (shell_prefix t)
or_condition t (some (negated, s)) = condition negated s (block_on_same_line t)

unfoldable pub line_kind : Text → Line
line_kind t =
    if is_skipped t
    then skipped
    else if text_eq t (text "}")
    then closing
    else if text_eq t (text "{")
    then opening
    else or_condition t (if_line t)

-- The line of the opening brace, unless the brace stands on the line before.
unfoldable pub brace_line : Bool → List Text → Parsed (List Text)
brace_line true ls = ok ls
brace_line false [] = ok []
brace_line false (l ∷ ls) = if text_eq (trim l) (text "{") then ok ls else err

-- The next line that is not skipped, behind an `If` block: an `else`, with whether its brace is on
-- the line, or another line, which cannot be put back.
pub data Next : Type 0 where
  no_line : Next
  else_line : Bool → Next
  other_line : Text → Next

unfoldable pub next_line : List Text → Next × List Text
next_line [] = (no_line, [])
next_line (l ∷ ls) =
    let t = trim l in
    let later = next_line ls in
    if is_skipped t
    then later
    else if starts_with (text "else") t
    then (else_line (has_char b'{' t), ls)
    else (other_line t, ls)

abbrev pub push_ok : Parsed AhkAction → List AhkAction
push_ok (ok a) = a ∷ []
push_ok _ = []

-- The part behind the `If` block: actions that come before it, its `else`, and the lines left.
-- `keep` says whether another line is parsed as an action, as a nested block does, or dropped.
abbrev pub Tail : Type 0
Tail = List AhkAction × (ElseActions × List Text)

abbrev pub behind_if :
    (Text → Text) → Bool → (List Text → Parsed Block) → Next × List Text → Parsed Tail
behind_if to_lowercase keep nested (no_line, ls) = ok ([], (no_else, ls))
behind_if to_lowercase keep nested (other_line t, ls) =
    ok (if keep then push_ok (parse_action to_lowercase t) else [], (no_else, ls))
behind_if to_lowercase keep nested (else_line has_brace, ls) = do
  ls1 ← brace_line has_brace ls
  (els, ls2) ← nested ls1
  ok ([], (else_actions (from_list els), ls2))

-- A negated condition has its block as the `else`; an `else` of its own is lost.
abbrev pub if_action : Types.WindowCriteria → Bool → List AhkAction → ElseActions → AhkAction
if_action c true then_actions els =
    if_win_active c Types.nil (else_actions (from_list then_actions))
if_action c false then_actions els = if_win_active c (from_list then_actions) els

-- An `If` with its blocks: the actions that it adds, and the lines left.
unfoldable pub if_block :
    (Text → Text)
    → Bool
    → (List Text → Parsed Block)
    → Bool
    → Text
    → Bool
    → List Text
    → Parsed Block
unfolding brace_line next_line
if_block to_lowercase keep nested negated criteria same_line ls = do
  c ← parse_window_criteria criteria
  ls1 ← brace_line same_line ls
  (then_actions, ls2) ← nested ls1
  (before, (els, ls3)) ← behind_if to_lowercase keep nested (next_line ls2)
  ok (before ++ if_action c negated then_actions els ∷ [], ls3)

-- The lines of a `Shell{` block, as they are, up to a closing brace.
unfoldable pub shell_lines : List Text → List Text × List Text
shell_lines [] = ([], [])
shell_lines (l ∷ ls) =
    let (more, rest) = shell_lines ls in
    if text_eq (trim l) (text "}") then ([], ls) else (l ∷ more, rest)

abbrev pub shell_of : Text → List AhkAction
shell_of script = if is_empty script then [] else shell script ∷ []

abbrev pub first_shell_line : Text → List Text
first_shell_line first = if is_empty first then [] else first ∷ []

abbrev pub shell_of_lines : List Text → List AhkAction
shell_of_lines [] = []
shell_of_lines (l ∷ ls) = shell (join (text "\n") (l ∷ ls)) ∷ []

unfoldable pub shell_block : Text → List Text → Block
unfolding shell_lines
shell_block first ls =
    if ends_with (text "}") first
    then (shell_of (trim (trim_end_matches (λ c. c == b'}') first)), ls)
    else (shell_of_lines (first_shell_line first ++ (shell_lines ls).0), (shell_lines ls).1)

-- A turn of the loop on a line of each kind: `go` is the rest of the loop, at a depth, with the
-- actions so far and the lines left; `nested` is `parse_block_actions`.
abbrev pub turn :
    (Text → Text)
    → Bool
    → (List Text → Parsed Block)
    → (ℕ → List AhkAction → List Text → Parsed Block)
    → Line
    → Text
    → ℕ
    → List AhkAction
    → List Text
    → Parsed Block
turn to_lowercase keep nested go skipped t depth acts ls = go depth acts ls
turn to_lowercase keep nested go closing t depth acts ls =
    if depth == 1 then ok (acts, ls) else go (depth - 1) acts ls
turn to_lowercase keep nested go opening t depth acts ls = go (depth + 1) acts ls
turn to_lowercase keep nested go (condition negated criteria same_line) t depth acts ls = do
  (added, ls') ← if_block to_lowercase keep nested negated criteria same_line ls
  go depth (acts ++ added) ls'
turn to_lowercase keep nested go (shell_line first) t depth acts ls =
    let (added, ls') = shell_block first ls in go depth (acts ++ added) ls'
turn to_lowercase keep nested go other t depth acts ls =
    go depth (acts ++ push_ok (parse_action to_lowercase t)) ls

unfoldable pub statements : ℕ → (Text → Text) → Bool → ℕ → List AhkAction → List Text → Parsed Block
unfolding line_kind if_block shell_block parse_action
statements zero to_lowercase keep depth acts ls = out_of_fuel
statements (suc fuel) to_lowercase keep depth acts [] = ok (acts, [])
statements (suc fuel) to_lowercase keep depth acts (l ∷ ls) =
    turn to_lowercase keep (statements fuel to_lowercase true 1 [])
      (statements fuel to_lowercase keep) (line_kind (trim l)) (trim l) depth acts ls

-- `parse_block_actions`
unfoldable pub parse_block_actions : ℕ → (Text → Text) → List Text → Parsed Block
unfolding statements
parse_block_actions fuel to_lowercase ls = statements fuel to_lowercase true 1 [] ls
