-- ===== src/Ahk/Interpreter/Balance.antt =====
-- ahk/interpreter.rs: which keys are down on the output device after an action.
use mathlib.Core.List.{reverse, reverse-cons}
use ahk_wayland.Prelude.{
  ℕ, zero, suc, ◌+◌, if◌then◌else◌, ◌≡◌, refl, Bool, true, false, ◌||◌, Option, none, some, List,
  [], ◌∷◌, ◌++◌, Text, contains, contains-append, arith,
}
use ahk_wayland.World.{World}
use ahk_wayland.Key.{Key}
use ahk_wayland.Event.{Action}
use ahk_wayland.Keyboard.{Held, replay, replay-append, replay-press, replay-release, replay-tap}
use ahk_wayland.Ahk.Types.{
  WindowCriteria, AhkAction, run, send, remap, sleep, shell, block, win_activate, win_close,
  if_win_active, win_wait_active, AhkActions, nil, cons, ElseActions, no_else, else_actions,
}
use ahk_wayland.Ahk.SendParser.{SendToken, key, text_token, parse_send_string}
use ahk_wayland.Ahk.SendActions.{
  tap, char_actions, char_to_key_with_shift, text_actions, press_all, release_all, token_actions,
  tokens_actions, convert_send_to_actions,
}
use ahk_wayland.Ahk.Interpreter.{
  taps, Exec, done, panic, out_of_fuel, and_then, win_wait, wait_attempts, wait_forever,
  without_modifiers, execute, prepend, execute_into, execute_all, execute_else, run_command,
  command_or_panic, check_window_active,
}

-- No key goes down that was up: whatever is down afterwards was down before.
abbrev pub LeavesNone : List Action → Type 0
LeavesNone xs = (held : Held) (j : Key) → replay xs held j ≡ true → held j ≡ true

LeavesNone-append : (xs ys : List Action) → LeavesNone xs → LeavesNone ys → LeavesNone (xs ++ ys)
LeavesNone-append xs ys h k held j p = h held j (k (replay xs held) j (rw replay-append at p))

pub LeavesNone-tap : (k : Key) → LeavesNone (tap k)
LeavesNone-tap k held j p = ground (arith, replay-tap k held j)

char_actions-LeavesNone : (o : Option (Key × Bool)) → LeavesNone (char_actions o)
unfolding char_actions replay
char_actions-LeavesNone none held j p = p
char_actions-LeavesNone (some (k, true)) held j p = ground arith
char_actions-LeavesNone (some (k, false)) held j p = ground arith

text_actions-LeavesNone : (s : Text) → LeavesNone (text_actions s)
unfolding text_actions replay
text_actions-LeavesNone [] held j p = p
text_actions-LeavesNone (c ∷ s) held j p =
    LeavesNone-append (char_actions (char_to_key_with_shift c)) (text_actions s)
      (char_actions-LeavesNone (char_to_key_with_shift c)) (text_actions-LeavesNone s) held j p

contains-reverse : (ks : List Key) (j : Key) → contains (reverse ks) j ≡ contains ks j
contains-reverse [] j = refl
contains-reverse (k ∷ ks) j =
    rw (reverse-cons k ks, contains-append (reverse ks) (k ∷ []) j, contains-reverse ks j)
      (ground arith)

-- The modifiers of a token go down first, and are released in the opposite order.
chord-LeavesNone :
    (ms : List Key) (k : Key) → LeavesNone (press_all ms ++ (tap k ++ release_all (reverse ms)))
chord-LeavesNone ms k held j p = ground (
  arith,
  rw (replay-append, replay-append, replay-release, contains-reverse, replay-tap, replay-press) at
      p,
)

token_actions-LeavesNone : (t : SendToken) → LeavesNone (token_actions t)
unfolding token_actions
token_actions-LeavesNone (text_token s) = text_actions-LeavesNone s
token_actions-LeavesNone (key k ms) = chord-LeavesNone ms k

tokens_actions-LeavesNone : (ts : List SendToken) → LeavesNone (tokens_actions ts)
unfolding tokens_actions replay
tokens_actions-LeavesNone [] held j p = p
tokens_actions-LeavesNone (t ∷ ts) held j p =
    LeavesNone-append (token_actions t) (tokens_actions ts) (token_actions-LeavesNone t)
      (tokens_actions-LeavesNone ts) held j p

-- Whatever the string of a `Send`, its key events leave no key down that was not down before:
-- shifts, modifiers and keys are all released, the keys of unfinished braces included.
convert_send_to_actions-LeavesNone :
    (to_lowercase : Text → Text) (s : Text) (held : Held) (j : Key)
    → replay (convert_send_to_actions to_lowercase s) held j ≡ true
    → held j ≡ true
unfolding convert_send_to_actions
convert_send_to_actions-LeavesNone to_lowercase s =
    tokens_actions-LeavesNone (parse_send_string to_lowercase s)

-- Down afterwards is at most what was down before, and the modifiers that are held.
abbrev pub LeavesAtMost : List Key → List Action → Type 0
LeavesAtMost active xs =
    (held : Held) (j : Key) → replay xs held j ≡ true → (contains active j || held j) ≡ true

LeavesAtMost-nil : (active : List Key) → LeavesAtMost active []
unfolding replay
LeavesAtMost-nil active held j p = ground arith

LeavesAtMost-append :
    (active : List Key) (xs ys : List Action)
    → LeavesAtMost active xs
    → LeavesAtMost active ys
    → LeavesAtMost active (xs ++ ys)
LeavesAtMost-append active xs ys h k held j p =
    let q : (contains active j || replay xs held j) ≡ true =
      k (replay xs held) j (rw replay-append at p) in
    ground (arith, q, h held j)

-- An execution that returns leaves at most the held modifiers down.
abbrev pub ExecLeaves : List Key → Exec → Type 0
ExecLeaves active (done xs n) = LeavesAtMost active xs
ExecLeaves active panic = Unit
ExecLeaves active out_of_fuel = Unit

prepend-ExecLeaves :
    (active : List Key) (xs : List Action) (r : Exec)
    → LeavesAtMost active xs
    → ExecLeaves active r
    → ExecLeaves active (prepend xs r)
prepend-ExecLeaves active xs (done ys n) h k = LeavesAtMost-append active xs ys h k
prepend-ExecLeaves active xs panic h k = tt
prepend-ExecLeaves active xs out_of_fuel h k = tt

and_then-ExecLeaves :
    (active : List Key) (r : Exec) (k : ℕ → Exec)
    → ExecLeaves active r
    → ((n : ℕ) → ExecLeaves active (k n))
    → ExecLeaves active (and_then r k)
and_then-ExecLeaves active (done xs n) k h next = prepend-ExecLeaves active xs (k n) h (next n)
and_then-ExecLeaves active panic k h next = tt
and_then-ExecLeaves active out_of_fuel k h next = tt

taps-LeavesNone : (ks : List Key) → LeavesNone (taps ks)
unfolding replay
taps-LeavesNone [] held j p = p
taps-LeavesNone (k ∷ ks) held j p =
    LeavesNone-append (tap k) (taps ks) (LeavesNone-tap k) (taps-LeavesNone ks) held j p

-- Around taps that leave nothing down, the held modifiers are down again at the end, and of the
-- other keys none that was up.
replay-without_modifiers :
    (active : List Key) (xs : List Action) (held : Held) (j : Key)
    → LeavesNone xs
    → (contains active j ≡ true → replay (without_modifiers active xs) held j ≡ true)
      × (replay (without_modifiers active xs) held j ≡ true → (contains active j || held j) ≡ true)
replay-without_modifiers active xs held j h = (
  λ p. rw (replay-append, replay-append, replay-press, p),
  λ p.
      let q : (contains active j || replay xs (replay (release_all active) held) j) ≡ true =
        rw (replay-append, replay-append, replay-press) at p in
      ground (arith, q, h (replay (release_all active) held) j, replay-release active held j),
)

if-ExecLeaves :
    (active : List Key) (b : Bool) (r s : Exec)
    → ExecLeaves active r
    → ExecLeaves active s
    → ExecLeaves active (if b then r else s)
if-ExecLeaves active true r s h k = h
if-ExecLeaves active false r s h k = k

wait_attempts-ExecLeaves :
    (w : World) (active : List Key) (c : WindowCriteria) (a n : ℕ)
    → ExecLeaves active (wait_attempts w c a n)
unfolding wait_attempts
wait_attempts-ExecLeaves w active c zero n = LeavesAtMost-nil active
wait_attempts-ExecLeaves w active c (suc a) n =
    if-ExecLeaves active (check_window_active w n c) _ _ (LeavesAtMost-nil active)
      (wait_attempts-ExecLeaves w active c a (n + 1))

wait_forever-ExecLeaves :
    (w : World) (active : List Key) (c : WindowCriteria) (f n : ℕ)
    → ExecLeaves active (wait_forever w c f n)
unfolding wait_forever
wait_forever-ExecLeaves w active c zero n = tt
wait_forever-ExecLeaves w active c (suc f) n =
    if-ExecLeaves active (check_window_active w n c) _ _ (LeavesAtMost-nil active)
      (wait_forever-ExecLeaves w active c f (n + 1))

win_wait-ExecLeaves :
    (w : World) (active : List Key) (f : ℕ) (c : WindowCriteria) (o : Option ℕ) (n : ℕ)
    → ExecLeaves active (win_wait w f c o n)
unfolding win_wait
win_wait-ExecLeaves w active f c (some t) n = wait_attempts-ExecLeaves w active c _ n
win_wait-ExecLeaves w active f c none n = wait_forever-ExecLeaves w active c f n

command_or_panic-ExecLeaves :
    (active : List Key) (o : Option (List Text)) (n : ℕ) → ExecLeaves active (command_or_panic o n)
unfolding replay
command_or_panic-ExecLeaves active none n = tt
command_or_panic-ExecLeaves active (some cmd) n = λ held j p. ground arith

mutual
  unfolding execute_into replay

  execute_into-ExecLeaves :
      (w : World) (active : List Key) (f : ℕ) (a : AhkAction) (n : ℕ)
      → ExecLeaves active (execute_into w active f a n)
  execute_into-ExecLeaves w active f (run parts) n =
      command_or_panic-ExecLeaves active (run_command parts) n
  execute_into-ExecLeaves w active f (send keys) n = λ held j.
      (replay-without_modifiers active _ held j
        (convert_send_to_actions-LeavesNone w.to_lowercase keys)).1
  execute_into-ExecLeaves w active f (remap ks) n =
      λ held j. (replay-without_modifiers active _ held j (taps-LeavesNone ks)).1
  execute_into-ExecLeaves w active f (sleep ms) n = λ held j p. ground arith
  execute_into-ExecLeaves w active f (shell script) n = λ held j p. ground arith
  execute_into-ExecLeaves w active f (block xs) n = execute_all-ExecLeaves w active f xs n
  execute_into-ExecLeaves w active f (win_activate c) n = λ held j p. ground arith
  execute_into-ExecLeaves w active f (win_close c) n = λ held j p. ground arith
  execute_into-ExecLeaves w active f (if_win_active c xs els) n =
      if-ExecLeaves active (check_window_active w n c) _ _
        (execute_all-ExecLeaves w active f xs (n + 1))
        (execute_else-ExecLeaves w active f els (n + 1))
  execute_into-ExecLeaves w active f (win_wait_active c o) n = win_wait-ExecLeaves w active f c o n

  execute_all-ExecLeaves :
      (w : World) (active : List Key) (f : ℕ) (xs : AhkActions) (n : ℕ)
      → ExecLeaves active (execute_all w active f xs n)
  execute_all-ExecLeaves w active f nil n = LeavesAtMost-nil active
  execute_all-ExecLeaves w active f (cons a xs) n =
      and_then-ExecLeaves active (execute_into w active f a n) _
        (execute_into-ExecLeaves w active f a n) (λ n'. execute_all-ExecLeaves w active f xs n')

  execute_else-ExecLeaves :
      (w : World) (active : List Key) (f : ℕ) (els : ElseActions) (n : ℕ)
      → ExecLeaves active (execute_else w active f els n)
  execute_else-ExecLeaves w active f no_else n = LeavesAtMost-nil active
  execute_else-ExecLeaves w active f (else_actions xs) n = execute_all-ExecLeaves w active f xs n

-- Whatever the action, nested to any depth, and whatever the windows do: if the interpreter
-- returns, the keys that are down on the output device afterwards were down before or are among
-- the modifiers that it was told are held.
pub execute-leaves :
    (w : World) (active : List Key) (fuel : ℕ) (a : AhkAction) (n n' : ℕ) (xs : List Action)
    (held : Held) (j : Key)
    → execute w active fuel a n ≡ done xs n'
    → replay xs held j ≡ true
    → (contains active j || held j) ≡ true
unfolding execute
execute-leaves w active fuel a n n' xs held j e =
    let h : ExecLeaves active (execute_into w active fuel a n) =
      execute_into-ExecLeaves w active fuel a n in
    (rw e at h) held j
