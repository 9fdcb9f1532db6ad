-- ===== src/Dispatcher/Shown.antt =====
-- action_dispatcher.rs: which keys are down on the virtual device.
use mathlib.Core.Path.{fun_ext}
use ahk_wayland.Prelude.{
  ℕ, zero, suc, ◌+◌, ◌≡◌, refl, ap, ◌∙◌, Bool, true, not, ◌&&◌, ◌||◌, List, [], ◌∷◌, ◌++◌, Text,
  map, ◌==◌, arith, Bool-cases, inl, inr,
}
use ahk_wayland.Key.{Key, key_backspace, key_leftshift, key_insert}
use ahk_wayland.Event.{
  KeyValue, press, release, RelativeEvent, Action, key_event, relative_event,
  mouse_movement_event_collection, input_event, command, delay, text_expansion,
}
use ahk_wayland.Keyboard.{Held, set_held, apply}
use ahk_wayland.Dispatcher.{
  DeviceEvent, key, relative, other, Request, emit, copy, set_handler, start, ActionDispatcher, Ran,
  done, failed, panicked, ◌then_run◌, request, attempt, register, on_key_event,
  send_mousemovement_event_batch, run_command, delete_trigger, paste, expand_text, on_action,
  dispatch_all,
}

-- The keys that the device holds after a request.
abbrev pub show_event : DeviceEvent → Held → Held
show_event (key e) held = set_held e.value e.key held
show_event (relative e) held = held
show_event (other n) held = held

abbrev pub show_events : List DeviceEvent → Held → Held
show_events [] held = held
show_events (e ∷ es) held = show_events es (show_event e held)

abbrev pub show_request : Request → Held → Held
show_request (emit es) held = show_events es held
show_request (copy s) held = held
show_request set_handler held = held
show_request (start cmd) held = held

unfoldable pub shown : List Request → Held → Held
shown [] held = held
shown (r ∷ rs) held = shown rs (show_request r held)

-- The specification: a list of actions as events of keys, an expansion as the taps that it makes.
abbrev pub spelled : Action → Held → Held
spelled (text_expansion n replacement add_space) held j =
    not (key_leftshift == j || key_insert == j || (key_backspace == j && not (n == 0))) && held j
spelled a held j = apply a held j

abbrev pub all_spelled : List Action → Held → Held
all_spelled [] held = held
all_spelled (a ∷ xs) held = all_spelled xs (spelled a held)

pub shown-append :
    (rs qs : List Request) (held : Held) → shown (rs ++ qs) held ≡ shown qs (shown rs held)
unfolding shown
shown-append [] qs held = refl
shown-append (r ∷ rs) qs held = shown-append rs qs (show_request r held)

-- Every request succeeds.
module _ (succeeds : ℕ → Bool) (all_succeed : (n : ℕ) → succeeds n ≡ true) where
  -- The step ends well, and changes the keys as `f` says.
  pub Shows : (ActionDispatcher → Ran) → (Held → Held) → Type 0
  Shows step f =
      (d : ActionDispatcher)
      → (d' : ActionDispatcher) × (step d ≡ done d')
        × ((held : Held) → shown d'.requests held ≡ f (shown d.requests held))

  Shows-request : (r : Request) → Shows (request succeeds r) (show_request r)
  unfolding shown Shows
  Shows-request r d = (
    record d { requests = d.requests ++ r ∷ []; tried = d.tried + 1 },
    rw (all_succeed d.tried) refl,
    λ held. shown-append d.requests (r ∷ []) held,
  )

  Shows-then :
      (m n : ActionDispatcher → Ran) (f g : Held → Held)
      → Shows m f
      → Shows n g
      → Shows (λ d. m d then_run n) (λ held. g (f held))
  unfolding Shows
  Shows-then m n f g hm hn d =
      let (d1, e1, s1) = hm d in
      let (d2, e2, s2) = hn d1 in (d2, rw e1 e2, λ held. s2 held ∙ ap g (s1 held))

  Shows-key_now :
      (k : Key) (v : KeyValue)
      → Shows (λ d. on_key_event succeeds (record { key = k; value = v }) d) (set_held v k)
  unfolding on_key_event
  Shows-key_now k v = Shows-request (emit (key (record { key = k; value = v }) ∷ []))

  Shows-batch :
      (es : List RelativeEvent) → Shows (send_mousemovement_event_batch succeeds es) (λ held. held)
  unfolding send_mousemovement_event_batch Shows
  Shows-batch es d =
      let (d', e, s) = Shows-request (emit (map relative es)) d in
      (d', e, λ held. s held ∙ no_keys es (shown d.requests held))
    where
      no_keys :
          (es' : List RelativeEvent) (held : Held) → show_events (map relative es') held ≡ held
      no_keys [] held = refl
      no_keys (e ∷ es') held = no_keys es' held

  Shows-command : (cmd : List Text) → Shows (run_command succeeds cmd) (λ held. held)
  unfolding run_command shown Shows
  Shows-command cmd d = elim (Bool-cases d.sigaction_set) [
    | inl e ↦ (
      record d { requests = d.requests ++ start cmd ∷ [] },
      rw e refl,
      λ held. shown-append d.requests (start cmd ∷ []) held,
    )
    | inr e ↦ (
      record d {
        sigaction_set = true;
        requests = (d.requests ++ set_handler ∷ []) ++ start cmd ∷ [];
        tried = d.tried + 1;
      },
      rw (e, all_succeed d.tried) refl,
      λ held.
          shown-append (d.requests ++ set_handler ∷ []) (start cmd ∷ []) held
          ∙ shown-append d.requests (set_handler ∷ []) held,
    )
  ]

  abbrev tap_held : Key → Held → Held
  tap_held k held = set_held release k (set_held press k held)

  abbrev taps_held : ℕ → Held → Held
  taps_held zero held = held
  taps_held (suc n) held = taps_held n (tap_held key_backspace held)

  Shows-backspace :
      Shows
        (λ d.
          on_key_event succeeds (record { key = key_backspace; value = press }) d then_run (λ d1.
            on_key_event succeeds (record { key = key_backspace; value = release }) d1))
        (tap_held key_backspace)
  Shows-backspace =
      Shows-then (λ d. on_key_event succeeds (record { key = key_backspace; value = press }) d)
        (λ d1. on_key_event succeeds (record { key = key_backspace; value = release }) d1)
        (set_held press key_backspace) (set_held release key_backspace)
        (Shows-key_now key_backspace press) (Shows-key_now key_backspace release)

  Shows-delete_trigger : (n : ℕ) → Shows (delete_trigger succeeds n) (taps_held n)
  unfolding delete_trigger Shows
  Shows-delete_trigger zero d = (d, refl, λ held. refl)
  Shows-delete_trigger (suc n) d =
      Shows-then
        (λ d0.
          on_key_event succeeds (record { key = key_backspace; value = press }) d0 then_run (λ d1.
            on_key_event succeeds (record { key = key_backspace; value = release }) d1))
        (delete_trigger succeeds n) (tap_held key_backspace) (taps_held n) Shows-backspace
        (λ d2. Shows-delete_trigger n d2) d

  abbrev paste_held : Held → Held
  paste_held held =
      set_held release key_leftshift (tap_held key_insert (set_held press key_leftshift held))

  Shows-paste : Shows (paste succeeds) paste_held
  unfolding paste
  Shows-paste =
      Shows-then _ _ _ _
        (Shows-then _ _ _ _
          (Shows-then _ _ _ _ (Shows-key_now key_leftshift press) (Shows-key_now key_insert press))
          (Shows-key_now key_insert release))
        (Shows-key_now key_leftshift release)

  taps_held-lem :
      (n : ℕ) (held : Held) (j : Key)
      → taps_held n held j ≡ (not (key_backspace == j && not (n == 0)) && held j)
  taps_held-lem zero held j = ground arith
  taps_held-lem (suc n) held j = ground (arith, taps_held-lem n (tap_held key_backspace held) j)

  expansion_held :
      (n : ℕ) (replacement : Text) (add_space : Bool) (held : Held) (j : Key)
      → paste_held (taps_held n held) j ≡ spelled (text_expansion n replacement add_space) held j
  expansion_held n replacement add_space held j = ground (arith, taps_held-lem n held j)

  Shows-expand_text :
      (n : ℕ) (replacement : Text) (add_space : Bool)
      → Shows
          (expand_text succeeds n replacement add_space)
          (spelled (text_expansion n replacement add_space))
  unfolding expand_text Shows
  Shows-expand_text n replacement add_space d =
      let (d', e, s) =
        Shows-then _ _ (taps_held n) paste_held
          (Shows-then _ _ (taps_held n) (λ held. held) (Shows-delete_trigger n)
            (Shows-request
              (copy (ahk_wayland.Dispatcher.final_text succeeds replacement add_space))))
          Shows-paste d in
      (
        d',
        e,
        λ held. s held ∙ fun_ext (expansion_held n replacement add_space (shown d.requests held)),
      )

  Shows-on_action : (a : Action) → Shows (on_action succeeds a) (spelled a)
  unfolding on_action on_key_event Shows
  Shows-on_action (key_event e) = Shows-request (emit (key e ∷ []))
  Shows-on_action (relative_event e) = Shows-request (emit (relative e ∷ []))
  Shows-on_action (mouse_movement_event_collection batch) = Shows-batch batch
  Shows-on_action (input_event e) = Shows-request (emit (other e ∷ []))
  Shows-on_action (command cmd) = Shows-command cmd
  Shows-on_action (delay ms) = λ d. (d, refl, λ held. refl)
  Shows-on_action (text_expansion n replacement add_space) =
      Shows-expand_text n replacement add_space

  Shows-dispatch_all :
      (actions : List Action) → Shows (dispatch_all succeeds actions) (all_spelled actions)
  unfolding dispatch_all Shows
  Shows-dispatch_all [] d = (d, refl, λ held. refl)
  Shows-dispatch_all (a ∷ actions) d =
      Shows-then (on_action succeeds a) (dispatch_all succeeds actions) (spelled a)
        (all_spelled actions) (Shows-on_action a) (λ d'. Shows-dispatch_all actions d') d

-- If every request to the device, the clipboard and the system succeeds, all actions of a round are
-- carried out, and the keys that the device then holds are those that the key events among them say:
-- a delay, a command or a pointer event changes none, and an expansion leaves no key down, with
-- Shift and Insert up, and Backspace up where the trigger is not empty.
pub dispatch_all-shown :
    (succeeds : ℕ → Bool) (actions : List Action) (d : ActionDispatcher)
    → ((n : ℕ) → succeeds n ≡ true)
    → (d' : ActionDispatcher) × (dispatch_all succeeds actions d ≡ done d')
      × ((held : Held) → shown d'.requests held ≡ all_spelled actions (shown d.requests held))
unfolding Shows
dispatch_all-shown succeeds actions d all_succeed =
    Shows-dispatch_all succeeds all_succeed actions d
