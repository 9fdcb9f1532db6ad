-- ===== src/Dispatcher.antt =====
-- action_dispatcher.rs: how the handler's actions leave the program. The virtual device, the clipboard
-- and the processes are the surroundings: what is asked of them is written down, in its order, and
-- whether the n-th request succeeds is a parameter.
pub mod Shown
use ahk_wayland.Prelude.{
  ℕ, zero, suc, ◌+◌, Bool, true, false, List, [], ◌∷◌, ◌++◌, Text, map, if◌then◌else◌,
}
use ahk_wayland.Key.{Key, key_backspace, key_leftshift, key_insert}
use ahk_wayland.Event.{
  KeyValue, press, release, KeyEvent, RelativeEvent, Action, key_event, relative_event,
  mouse_movement_event_collection, input_event, command, delay, text_expansion,
}

-- An event for the device: an `InputEvent` by its type.
pub data DeviceEvent : Type 0 where
  key : KeyEvent → DeviceEvent
  relative : RelativeEvent → DeviceEvent
  other : ℕ → DeviceEvent

-- One request: events in one call of `emit`, text for the clipboard, the handler of SIGCHLD, and a
-- process.
pub data Request : Type 0 where
  emit : List DeviceEvent → Request
  copy : Text → Request
  set_handler : Request
  start : List Text → Request

-- The requests that succeeded, with the processes that were to be started, and how many requests
-- that can fail were tried.
pub record ActionDispatcher : Type 0 where
  pub sigaction_set : Bool
  pub requests : List Request
  pub tried : ℕ

-- A result, with the dispatcher as it then is. A panic comes of `expect` alone.
pub data Ran : Type 0 where
  done : ActionDispatcher → Ran
  failed : ActionDispatcher → Ran
  panicked : ActionDispatcher → Ran

infixl 5 ◌then_run◌
abbrev pub ◌then_run◌ : Ran → (ActionDispatcher → Ran) → Ran
done d then_run f = f d
failed d then_run f = failed d
panicked d then_run f = panicked d

module _ (succeeds : ℕ → Bool) where
  abbrev pub attempt : (ActionDispatcher → Ran) → Request → ActionDispatcher → Ran
  attempt otherwise r d =
      if succeeds d.tried
      then done (record d { requests = d.requests ++ r ∷ []; tried = d.tried + 1 })
      else otherwise (record d { tried = d.tried + 1 })

  abbrev pub request : Request → ActionDispatcher → Ran
  request = attempt failed

  unfoldable pub on_key_event : KeyEvent → ActionDispatcher → Ran
  on_key_event e d = request (emit (key e ∷ [])) d

  unfoldable pub send_mousemovement_event_batch : List RelativeEvent → ActionDispatcher → Ran
  send_mousemovement_event_batch batch d = request (emit (map relative batch)) d

  abbrev pub key_now : Key → KeyValue → ActionDispatcher → Ran
  key_now k v d = on_key_event (record { key = k; value = v }) d

  -- Once, the handler of SIGCHLD; then the process. A failure to start it is logged.
  abbrev pub register : ActionDispatcher → Ran
  register d =
      if d.sigaction_set
      then done d
      else attempt panicked set_handler d then_run (λ d'. done (record d' { sigaction_set = true }))

  unfoldable pub run_command : List Text → ActionDispatcher → Ran
  run_command cmd d =
      register d then_run (λ d'. done (record d' { requests = d'.requests ++ start cmd ∷ [] }))

  -- The trigger is deleted.
  unfoldable pub delete_trigger : ℕ → ActionDispatcher → Ran
  unfolding on_key_event
  delete_trigger zero d = done d
  delete_trigger (suc n) d =
      key_now key_backspace press d
      then_run (λ d1. key_now key_backspace release d1)
      then_run (λ d2. delete_trigger n d2)

  -- With a no-break space behind it, if there is to be a space.
  abbrev pub final_text : Text → Bool → Text
  final_text replacement add_space = if add_space then replacement ++ 0xa0 ∷ [] else replacement

  unfoldable pub paste : ActionDispatcher → Ran
  unfolding on_key_event
  paste d =
      key_now key_leftshift press d
      then_run (λ d1. key_now key_insert press d1)
      then_run (λ d2. key_now key_insert release d2)
      then_run (λ d3. key_now key_leftshift release d3)

  unfoldable pub expand_text : ℕ → Text → Bool → ActionDispatcher → Ran
  unfolding delete_trigger paste
  expand_text trigger_len replacement add_space d =
      delete_trigger trigger_len d
      then_run (λ d1. request (copy (final_text replacement add_space)) d1)
      then_run (λ d2. paste d2)

  -- A delay does nothing.
  unfoldable pub on_action : Action → ActionDispatcher → Ran
  unfolding on_key_event send_mousemovement_event_batch run_command expand_text
  on_action (key_event e) d = on_key_event e d
  on_action (relative_event e) d = request (emit (relative e ∷ [])) d
  on_action (mouse_movement_event_collection batch) d = send_mousemovement_event_batch batch d
  on_action (input_event e) d = request (emit (other e ∷ [])) d
  on_action (command cmd) d = run_command cmd d
  on_action (delay ms) d = done d
  on_action (text_expansion trigger_len replacement add_space) d =
      expand_text trigger_len replacement add_space d

  -- The loop of `handle_events`, up to the first error.
  unfoldable pub dispatch_all : List Action → ActionDispatcher → Ran
  unfolding on_action
  dispatch_all [] d = done d
  dispatch_all (a ∷ actions) d = on_action a d then_run (λ d'. dispatch_all actions d')
