-- ===== src/Config/Convert/Agreement.antt =====
-- config/mod.rs and event_handler.rs: an action that is converted does what the interpreter does.
use mathlib.Core.Path.{subst}
use ahk_wayland.Prelude.{
  ℕ, ◌≡◌, refl, ap, sym, ◌∙◌, Bool, false, Option, none, some, List, [], ◌∷◌, ◌++◌, Text, text,
  trim, map, append_assoc, append-nil, arith, Bool-cases, inl, inr,
}
use ahk_wayland.Key.{Key}
use ahk_wayland.Event.{Action, command, delay}
use ahk_wayland.Ahk.Types.{
  AhkAction, run, send, remap, sleep, shell, block, win_activate, win_close, if_win_active,
  win_wait_active, AhkActions, nil, cons, ElseActions, no_else, else_actions,
}
use ahk_wayland.Ahk.Interpreter.{
  Exec, done, panic, and_then, prepend, run_command, command_or_panic, build_kdotool_command,
  execute_into, execute_all, execute,
}
use ahk_wayland.Config.Types.{KeymapAction}
use ahk_wayland.Config.Shell.{ShellLibrary, kdotool_command}
use ahk_wayland.Config.Convert.{
  needs_interpreter, any_needs, Converted, extend, launch_or_panic, shell_run_command,
  convert_actions_to_shell, convert_all, convert_actions,
}
use ahk_wayland.Handler.State
use ahk_wayland.Handler.State.{EventHandler, Env, Outcome, ok, ◌>>=◌}
use ahk_wayland.Handler.Modifiers.{tag}
use ahk_wayland.Handler.Dispatch.{after_exec, dispatch_keymap_action, dispatch_actions}

-- The conversion has the same meaning: there is no `If`, and a shell script is trimmed already.
unfoldable mutual
  pub IsPlain : AhkAction → Type 0
  IsPlain (run parts) = Unit
  IsPlain (send keys) = Unit
  IsPlain (remap target_keys) = Unit
  IsPlain (sleep ms) = Unit
  IsPlain (shell script) = trim script ≡ script
  IsPlain (block actions) = ArePlain actions
  IsPlain (win_activate criteria) = Unit
  IsPlain (win_close criteria) = Unit
  IsPlain (if_win_active criteria then_actions els) = ⊥
  IsPlain (win_wait_active criteria timeout_ms) = Unit

  pub ArePlain : AhkActions → Type 0
  ArePlain nil = Unit
  ArePlain (cons a actions) = IsPlain a × ArePlain actions

-- What the handler does with the converted actions of a hotkey.
abbrev pub dispatch_converted : Env → Bool → Key → Converted → EventHandler → Outcome EventHandler
dispatch_converted env exact_match k none s = State.panic
dispatch_converted env exact_match k (some xs) s =
    dispatch_actions env (map (tag exact_match) xs) k s

-- An action as keymap actions, and as the interpreter's: both panic, or both add the same actions.
abbrev Agrees : Env → Converted → (ℕ → Exec) → Type 0
Agrees env none e = (n : ℕ) → e n ≡ panic
Agrees env (some ks) e =
    (xs : List Action) × ((n : ℕ) → e n ≡ done xs n)
    × ((exact_match : Bool) (k : Key) (s : EventHandler)
        → dispatch_actions env (map (tag exact_match) ks) k s
          ≡ ok (record s { actions = s.actions ++ xs }))

kdotool_command-same :
    (kde : Bool) (name : Text) (c : ahk_wayland.Ahk.Types.WindowCriteria)
    → kdotool_command kde name c ≡ build_kdotool_command kde name c
unfolding kdotool_command build_kdotool_command
kdotool_command-same kde name c = refl

dispatch-append :
    (env : Env) (exact_match : Bool) (k : Key) (xs ys : List KeymapAction) (s : EventHandler)
    → dispatch_actions env (map (tag exact_match) (xs ++ ys)) k s ≡ (
        dispatch_actions env (map (tag exact_match) xs) k s
        >>= (λ s'. dispatch_actions env (map (tag exact_match) ys) k s'))
unfolding dispatch_actions
dispatch-append env exact_match k [] ys s = refl
dispatch-append env exact_match k (x ∷ xs) ys s =
    after (λ s'. dispatch-append env exact_match k xs ys s')
      (dispatch_keymap_action env x exact_match k s)
  where
    after :
        ((s' : EventHandler)
          → dispatch_actions env (map (tag exact_match) (xs ++ ys)) k s' ≡ (
              dispatch_actions env (map (tag exact_match) xs) k s'
              >>= (λ s2. dispatch_actions env (map (tag exact_match) ys) k s2)))
        → (r : Outcome EventHandler)
        → (r >>= (λ s'. dispatch_actions env (map (tag exact_match) (xs ++ ys)) k s')) ≡ (
            (r >>= (λ s'. dispatch_actions env (map (tag exact_match) xs) k s'))
            >>= (λ s'. dispatch_actions env (map (tag exact_match) ys) k s'))
    after ih (ok s') = ih s'
    after ih State.err = refl
    after ih State.panic = refl
    after ih State.out_of_fuel = refl

Agrees-nil : (env : Env) (w : List Key) → Agrees env (some []) (λ n. done [] n)
unfolding dispatch_actions
Agrees-nil env w = (
  [],
  λ n. refl,
  λ exact_match k s.
      ap (λ (xs : List Action). ok (record s { actions = xs })) (sym (append-nil s.actions)),
)

Agrees-launch :
    (env : Env) (cmd : List Text)
    → Agrees env (some (KeymapAction.launch cmd ∷ [])) (λ n. done (command cmd ∷ []) n)
unfolding dispatch_actions
Agrees-launch env cmd = (command cmd ∷ [], λ n. refl, λ exact_match k s. refl)

Agrees-sleep :
    (env : Env) (ms : ℕ)
    → Agrees env (some (KeymapAction.sleep ms ∷ [])) (λ n. done (delay ms ∷ []) n)
unfolding dispatch_actions
Agrees-sleep env ms = (delay ms ∷ [], λ n. refl, λ exact_match k s. refl)

Agrees-extend :
    (env : Env) (a b : Converted) (e f : ℕ → Exec)
    → Agrees env a e
    → Agrees env b f
    → Agrees env (extend a b) (λ n. and_then (e n) f)
Agrees-extend env none b e f h k = λ n. rw (h n) refl
Agrees-extend env (some ks) none e f h k = λ n. rw (h.1 n) (ap (prepend h.0) (k n))
Agrees-extend env (some ks) (some js) e f h k = (
  h.0 ++ k.0,
  λ n. rw (h.1 n) (ap (prepend h.0) (k.1 n)),
  λ exact_match key s.
      dispatch-append env exact_match key ks js s
      ∙ ap
          (λ (r : Outcome EventHandler).
            r >>= (λ s'. dispatch_actions env (map (tag exact_match) js) key s'))
          (h.2 exact_match key s)
      ∙ k.2 exact_match key (record s { actions = s.actions ++ h.0 })
      ∙ ap (λ (xs : List Action). ok (record s { actions = xs })) (append_assoc s.actions h.0 k.0),
)

Agrees-command :
    (env : Env) (cmd : Option (List Text)) → Agrees env (launch_or_panic cmd) (command_or_panic cmd)
Agrees-command env none = λ n. refl
Agrees-command env (some cmd) = Agrees-launch env cmd

-- The two commands for a `Run` are the same.
shell_run_command-same : (parts : List Text) → shell_run_command parts ≡ run_command parts
unfolding shell_run_command run_command
shell_run_command-same [] = refl
shell_run_command-same (first ∷ rest) = refl

Agrees-run :
    (env : Env) (parts : List Text)
    → Agrees env (launch_or_panic (shell_run_command parts)) (command_or_panic (run_command parts))
Agrees-run env parts =
    subst (λ cmd. Agrees env (launch_or_panic (shell_run_command parts)) (command_or_panic cmd))
      (shell_run_command-same parts) (Agrees-command env (shell_run_command parts))

module _ (env : Env) (lib : ShellLibrary) (same_build : lib.kde ≡ env.world.kde)
    (w : List Key) where
  Agrees-kdotool :
      (name : Text) (c : ahk_wayland.Ahk.Types.WindowCriteria)
      → Agrees env
          (some (KeymapAction.launch (kdotool_command lib.kde name c) ∷ []))
          (λ n. done (command (build_kdotool_command env.world.kde name c) ∷ []) n)
  Agrees-kdotool name c =
      subst
        (λ (cmd : List Text).
          Agrees env (some (KeymapAction.launch (kdotool_command lib.kde name c) ∷ []))
            (λ n. done (command cmd ∷ []) n))
        (kdotool_command-same lib.kde name c
          ∙ ap (λ (b : Bool). build_kdotool_command b name c) same_build)
        (Agrees-launch env (kdotool_command lib.kde name c))

  mutual
    unfolding convert_actions_to_shell execute_into IsPlain needs_interpreter

    convert_actions_to_shell-Agrees :
        (a : AhkAction)
        → IsPlain a
        → needs_interpreter a ≡ false
        → Agrees env (convert_actions_to_shell lib a) (execute_into env.world w env.fuel a)
    convert_actions_to_shell-Agrees (run parts) h e = Agrees-run env parts
    convert_actions_to_shell-Agrees (send keys) h e = absurd (cc)
    convert_actions_to_shell-Agrees (remap target_keys) h e = absurd (cc)
    convert_actions_to_shell-Agrees (sleep ms) h e = Agrees-sleep env ms
    convert_actions_to_shell-Agrees (shell script) h e =
        subst
          (λ (t : Text).
            Agrees env (some (KeymapAction.launch (text "/bin/sh" ∷ text "-c" ∷ t ∷ []) ∷ []))
              (λ n. done (command (text "/bin/sh" ∷ text "-c" ∷ script ∷ []) ∷ []) n))
          (sym h) (Agrees-launch env (text "/bin/sh" ∷ text "-c" ∷ script ∷ []))
    convert_actions_to_shell-Agrees (block actions) h e = convert_all-Agrees actions h e
    convert_actions_to_shell-Agrees (win_activate criteria) h e =
        Agrees-kdotool (text "windowactivate") criteria
    convert_actions_to_shell-Agrees (win_close criteria) h e =
        Agrees-kdotool (text "windowclose") criteria
    convert_actions_to_shell-Agrees (if_win_active criteria then_actions els) h e = absurd h
    convert_actions_to_shell-Agrees (win_wait_active criteria timeout_ms) h e = absurd (cc)

    convert_all-Agrees :
        (actions : AhkActions)
        → ArePlain actions
        → any_needs actions ≡ false
        → Agrees env (convert_all lib actions) (execute_all env.world w env.fuel actions)
    convert_all-Agrees nil h e = Agrees-nil env w
    convert_all-Agrees (cons a actions) h e =
        Agrees-extend env (convert_actions_to_shell lib a) (convert_all lib actions) _ _
          (convert_actions_to_shell-Agrees a h.0 (ground arith))
          (convert_all-Agrees actions h.1 (ground arith))

dispatch-Agrees :
    (env : Env) (exact_match : Bool) (k : Key) (s : EventHandler) (c : Converted) (e : ℕ → Exec)
    → Agrees env c e
    → dispatch_converted env exact_match k c s ≡ after_exec (e s.queries) s
dispatch-Agrees env exact_match k s none e h = rw (h s.queries) refl
dispatch-Agrees env exact_match k s (some ks) e h = h.2 exact_match k s ∙ rw (h.1 s.queries) refl

dispatch_one :
    (env : Env) (exact_match : Bool) (k : Key) (s : EventHandler) (a : AhkAction)
    (r : Outcome EventHandler)
    → after_exec (execute env.world s.modifiers env.fuel a s.queries) s ≡ r
    → dispatch_converted env exact_match k (some (KeymapAction.ahk_interpreted a ∷ [])) s ≡ r
unfolding dispatch_actions
dispatch_one env exact_match k s a r h = rw h (ok_bind r)
  where
    ok_bind : (r' : Outcome EventHandler) → (r' >>= (λ s'. ok s')) ≡ r'
    ok_bind (ok s') = refl
    ok_bind State.err = refl
    ok_bind State.panic = refl
    ok_bind State.out_of_fuel = refl

-- The keymap actions that an action of an AutoHotkey file is converted to change the handler just as
-- running the action in the interpreter does, panics included, if both are built for the same desktop
-- and the action needs the interpreter, or has no `If` and no shell script with white space around it.
pub convert_actions-dispatch :
    (env : Env) (lib : ShellLibrary) (exact_match : Bool) (k : Key) (s : EventHandler)
    (a : AhkAction)
    → lib.kde ≡ env.world.kde
    → (needs_interpreter a ≡ false → IsPlain a)
    → dispatch_converted env exact_match k (convert_actions lib a) s
      ≡ after_exec (execute env.world s.modifiers env.fuel a s.queries) s
unfolding convert_actions
convert_actions-dispatch env lib exact_match k s a same_build plain =
    elim (Bool-cases (needs_interpreter a)) [
      | inl e ↦ rw e (dispatch_one env exact_match k s a _ refl)
      | inr e ↦ rw e (
          unfold execute in
          dispatch-Agrees env exact_match k s (convert_actions_to_shell lib a)
            (execute_into env.world s.modifiers env.fuel a)
            (convert_actions_to_shell-Agrees env lib same_build s.modifiers a (plain e) e))
    ]
