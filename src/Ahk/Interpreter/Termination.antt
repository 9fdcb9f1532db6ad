-- ===== src/Ahk/Interpreter/Termination.antt =====
-- ahk/interpreter.rs: when the interpreter returns, and after how many window queries at most.
use mathlib.Core.Path.{subst}
use ahk_wayland.Prelude.{
  ℕ, zero, suc, ◌+◌, ◌/◌, ◌≤◌, ◌<◌, ◌≡◌, refl, Bool, true, false, none, some, List, [], ◌∷◌, arith,
  if◌then◌else◌,
}
use ahk_wayland.World.{World}
use ahk_wayland.Key.{Key}
use ahk_wayland.Event.{Action}
use ahk_wayland.Ahk.Types.{
  WindowCriteria, AhkAction, run, send, remap, sleep, shell, block, win_activate, win_close,
  if_win_active, win_wait_active, AhkActions, nil, cons, ElseActions, no_else, else_actions,
}
use ahk_wayland.Ahk.Interpreter.{
  Exec, done, panic, out_of_fuel, prepend, and_then, win_wait, wait_attempts, wait_forever,
  execute_into, execute_all, execute_else, execute, run_command, check_window_active,
  poll_interval_ms,
}

-- Every `Run` has parts, and every `WinWaitActive` has a timeout.
unfoldable mutual
  pub IsBounded : AhkAction → Type 0
  IsBounded (run []) = ⊥
  IsBounded (run (s ∷ parts)) = Unit
  IsBounded (send keys) = Unit
  IsBounded (remap ks) = Unit
  IsBounded (sleep ms) = Unit
  IsBounded (shell script) = Unit
  IsBounded (block xs) = AllBounded xs
  IsBounded (win_activate c) = Unit
  IsBounded (win_close c) = Unit
  IsBounded (if_win_active c xs els) = AllBounded xs × ElseBounded els
  IsBounded (win_wait_active c none) = ⊥
  IsBounded (win_wait_active c (some t)) = Unit

  pub AllBounded : AhkActions → Type 0
  AllBounded nil = Unit
  AllBounded (cons a xs) = IsBounded a × AllBounded xs

  pub ElseBounded : ElseActions → Type 0
  ElseBounded no_else = Unit
  ElseBounded (else_actions xs) = AllBounded xs

-- The most window queries that an action makes: a wait polls every 50 ms of its timeout.
unfoldable mutual
  pub queries : AhkAction → ℕ
  queries (run parts) = 0
  queries (send keys) = 0
  queries (remap ks) = 0
  queries (sleep ms) = 0
  queries (shell script) = 0
  queries (block xs) = queries_all xs
  queries (win_activate c) = 0
  queries (win_close c) = 0
  queries (if_win_active c xs els) = 1 + queries_all xs + queries_else els
  queries (win_wait_active c none) = 0
  queries (win_wait_active c (some t)) = t / poll_interval_ms

  pub queries_all : AhkActions → ℕ
  queries_all nil = 0
  queries_all (cons a xs) = queries a + queries_all xs

  pub queries_else : ElseActions → ℕ
  queries_else no_else = 0
  queries_else (else_actions xs) = queries_all xs

-- The execution returned, and the count of queries is in the bound.
abbrev pub DoneBy : ℕ → Exec → Type 0
DoneBy bound (done xs n) = n ≤ bound
DoneBy bound panic = ⊥
DoneBy bound out_of_fuel = ⊥

DoneBy-mono : (a b : ℕ) (r : Exec) → a ≤ b → DoneBy a r → DoneBy b r
DoneBy-mono a b (done xs n) h k = omega arith
DoneBy-mono a b panic h k = k
DoneBy-mono a b out_of_fuel h k = k

prepend-DoneBy : (b : ℕ) (xs : List Action) (r : Exec) → DoneBy b r → DoneBy b (prepend xs r)
prepend-DoneBy b xs (done ys n) h = h
prepend-DoneBy b xs panic h = h
prepend-DoneBy b xs out_of_fuel h = h

and_then-DoneBy :
    (a b : ℕ) (r : Exec) (k : ℕ → Exec)
    → DoneBy a r
    → ((n : ℕ) → n ≤ a → DoneBy b (k n))
    → DoneBy b (and_then r k)
and_then-DoneBy a b (done xs n) k h next = prepend-DoneBy b xs (k n) (next n h)
and_then-DoneBy a b panic k h next = h
and_then-DoneBy a b out_of_fuel k h next = h

if-DoneBy :
    (b : ℕ) (t : Bool) (r s : Exec) → DoneBy b r → DoneBy b s → DoneBy b (if t then r else s)
if-DoneBy b true r s h k = h
if-DoneBy b false r s h k = k

wait_attempts-DoneBy :
    (w : World) (c : WindowCriteria) (a n : ℕ) → DoneBy (n + a) (wait_attempts w c a n)
unfolding wait_attempts
wait_attempts-DoneBy w c zero n = omega arith
wait_attempts-DoneBy w c (suc a) n =
    if-DoneBy (n + suc a) (check_window_active w n c) _ _ (omega arith)
      (DoneBy-mono (n + 1 + a) (n + suc a) _ (omega arith) (wait_attempts-DoneBy w c a (n + 1)))

mutual
  unfolding execute_into IsBounded queries run_command win_wait

  execute_into-DoneBy :
      (w : World) (ks : List Key) (f : ℕ) (a : AhkAction) (n : ℕ)
      → IsBounded a
      → DoneBy (n + queries a) (execute_into w ks f a n)
  execute_into-DoneBy w ks f (run []) n h = absurd h
  execute_into-DoneBy w ks f (run (s ∷ parts)) n h = omega arith
  execute_into-DoneBy w ks f (send keys) n h = omega arith
  execute_into-DoneBy w ks f (remap js) n h = omega arith
  execute_into-DoneBy w ks f (sleep ms) n h = omega arith
  execute_into-DoneBy w ks f (shell script) n h = omega arith
  execute_into-DoneBy w ks f (block xs) n h = execute_all-DoneBy w ks f xs n h
  execute_into-DoneBy w ks f (win_activate c) n h = omega arith
  execute_into-DoneBy w ks f (win_close c) n h = omega arith
  execute_into-DoneBy w ks f (if_win_active c xs els) n h =
      if-DoneBy _ (check_window_active w n c) _ _
        (DoneBy-mono (n + 1 + queries_all xs) _ _ (omega arith)
          (execute_all-DoneBy w ks f xs (n + 1) h.0))
        (DoneBy-mono (n + 1 + queries_else els) _ _ (omega arith)
          (execute_else-DoneBy w ks f els (n + 1) h.1))
  execute_into-DoneBy w ks f (win_wait_active c none) n h = absurd h
  execute_into-DoneBy w ks f (win_wait_active c (some t)) n h = wait_attempts-DoneBy w c _ n

  execute_all-DoneBy :
      (w : World) (ks : List Key) (f : ℕ) (xs : AhkActions) (n : ℕ)
      → AllBounded xs
      → DoneBy (n + queries_all xs) (execute_all w ks f xs n)
  execute_all-DoneBy w ks f nil n h = omega arith
  execute_all-DoneBy w ks f (cons a xs) n h =
      and_then-DoneBy (n + queries a) _ (execute_into w ks f a n) _
        (execute_into-DoneBy w ks f a n h.0)
        (λ m le.
          DoneBy-mono (m + queries_all xs) _ _ (omega arith) (execute_all-DoneBy w ks f xs m h.1))

  execute_else-DoneBy :
      (w : World) (ks : List Key) (f : ℕ) (els : ElseActions) (n : ℕ)
      → ElseBounded els
      → DoneBy (n + queries_else els) (execute_else w ks f els n)
  execute_else-DoneBy w ks f no_else n h = omega arith
  execute_else-DoneBy w ks f (else_actions xs) n h = execute_all-DoneBy w ks f xs n h

-- If every `Run` of an action has parts and every wait in it has a timeout, the interpreter
-- returns, with any fuel, without a panic, and after at most `queries` of the action's window
-- queries.
pub execute_total :
    (w : World) (active : List Key) (fuel : ℕ) (a : AhkAction) (n : ℕ)
    → IsBounded a
    → (xs : List Action) × (n' : ℕ) × (execute w active fuel a n ≡ done xs n')
      × (n' ≤ n + queries a)
unfolding execute
execute_total w active fuel a n h =
    go (execute_into w active fuel a n) (execute_into-DoneBy w active fuel a n h)
  where
    go :
        (r : Exec)
        → DoneBy (n + queries a) r
        → (xs : List Action) × (n' : ℕ) × (r ≡ done xs n') × (n' ≤ n + queries a)
    go (done xs n') k = (xs, n', refl, k)
    go panic k = absurd k
    go out_of_fuel k = absurd k

-- A wait with no timeout ends at the first query at which the window is active, if the fuel covers
-- that query: not before it, and with nothing emitted.
pub wait_forever-returns :
    (w : World) (c : WindowCriteria) (fuel n k : ℕ)
    → k < fuel
    → check_window_active w (n + k) c ≡ true
    → ((i : ℕ) → i < k → check_window_active w (n + i) c ≡ false)
    → wait_forever w c fuel n ≡ done [] (n + k + 1)
unfolding wait_forever
wait_forever-returns w c zero n k h e before = absurd (omega arith)
wait_forever-returns w c (suc fuel) n zero h e before =
    let p : n + 0 ≡ n = omega arith in rw (rw p at e, p) refl
wait_forever-returns w c (suc fuel) n (suc k) h e before =
    let p : n + suc k ≡ n + 1 + k = omega arith in
    let now : check_window_active w n c ≡ false =
      subst (λ m. check_window_active w m c ≡ false) (omega arith) (before 0 (omega arith)) in
    rw (now, wait_forever-returns w c fuel (n + 1) k (omega arith) (rw p at e) later, p) refl
  where
    later : (i : ℕ) → i < k → check_window_active w (n + 1 + i) c ≡ false
    later i le =
        subst (λ m. check_window_active w m c ≡ false) (omega arith) (before (suc i) (omega arith))
