-- ===== src/EventLoop/Copying.antt =====
-- main.rs: rounds of key events with an empty configuration.
use ahk_wayland.Prelude.{
  ℕ, ◌≡◌, refl, sym, ap, ◌∙◌, Bool, true, false, Option, none, some, List, [], ◌∷◌, ◌++◌, map, Text,
}
use mathlib.Core.Path.{subst}
use ahk_wayland.Event.{
  KeyEvent, KeyValue, press, release, repeat, value, key_value, Action, key_action, pos,
}
use ahk_wayland.Key.{Key}
use ahk_wayland.Keyboard.{Held, replay, replay-append}
use ahk_wayland.InputDevice.{InputDeviceInfo}
use ahk_wayland.InputDevice.Devices.{InputDevice, to_info}
use ahk_wayland.InputDevice.Selection.{DeviceMap}
use ahk_wayland.Handler.State.{Env, ok, ◌>>=◌}
use ahk_wayland.Handler.OnEvent.{Event}
use ahk_wayland.Handler.Idle.{IsEmptyConfig, IsIdle}
use ahk_wayland.Handler.Passthrough.{Arrival, arrivals, forwarded}
use ahk_wayland.Dispatcher.Shown.{shown}
use ahk_wayland.EventLoop.Forwarding.{handle_events-forwards}
use ahk_wayland.EventLoop.Input.{
  InputEvent, EventType, new_events, new_event, new_key_event, Fetched, fetched,
  handle_input_events,
}
use ahk_wayland.EventLoop.Rounds.{
  Setup, Loop, Round, next_round, handle_device, get_device, handle_devices, if_exists,
}
use ahk_wayland.EventLoop.Runs.{watch, run_round, after_devices, Reload, reload, run_rounds}

-- Key events with the surroundings of each, as the kernel reports them and as the handler gets them.
abbrev pub TimedKeys : Type 0
TimedKeys = List (Env × KeyEvent)

abbrev pub raw : KeyEvent → InputEvent
raw e = record { event_type = EventType.key; code = e.key; value = pos (value e.value); itself = 0 }

abbrev pub reported : TimedKeys → List (Env × InputEvent)
reported es = map (λ (e : Env × KeyEvent). (e.0, raw e.1)) es

abbrev received : InputDeviceInfo → TimedKeys → List Arrival
received d es = map (λ (e : Env × KeyEvent). record { env = e.0; device = d; event = e.1 }) es

abbrev pub actions_of : TimedKeys → List Action
actions_of es = map (λ (e : Env × KeyEvent). key_action e.1.key e.1.value) es

forwarded-received :
    (d : InputDeviceInfo) (es : TimedKeys) → forwarded (received d es) ≡ actions_of es
forwarded-received d [] = refl
forwarded-received d (e ∷ es) =
    ap (λ (xs : List Action). key_action e.1.key e.1.value ∷ xs) (forwarded-received d es)

new_event-raw :
    (d : InputDeviceInfo) (k : Key) (v : KeyValue)
    → new_event d (raw (record { key = k; value = v }))
      ≡ ok (Event.key_event d (record { key = k; value = v }))
unfolding new_event new_key_event value key_value
new_event-raw d k press = refl
new_event-raw d k release = refl
new_event-raw d k repeat = refl

new_events-reported :
    (d : InputDeviceInfo) (es : TimedKeys)
    → new_events d (reported es) ≡ ok (arrivals (received d es))
unfolding new_events
new_events-reported d [] = refl
new_events-reported d (e ∷ es) =
    rw (new_event-raw d e.1.key e.1.value) (rw (new_events-reported d es) refl)

-- The keys of a round, by the paths of their devices.
abbrev pub KeyInput : Type 0
KeyInput = List (Text × TimedKeys)

abbrev pub fetches : KeyInput → List (Text × Fetched)
fetches inputs = map (λ (i : Text × TimedKeys). (i.0, fetched (reported i.1))) inputs

abbrev actions_at : Option InputDevice → TimedKeys → List Action
actions_at none es = []
actions_at (some d) es = actions_of es

-- The events of the devices that are read, in a row.
abbrev pub sent : DeviceMap → KeyInput → List Action
sent m [] = []
sent m ((p, es) ∷ more) = actions_at (get_device p m) es ++ sent m more

-- The configuration is empty, and the handler is idle and keeps no action.
abbrev pub IsCopying : Loop → Type 0
IsCopying l = IsEmptyConfig l.config × IsIdle l.handler × (l.handler.actions ≡ [])

-- From one state to another the device has got these actions, and nothing else has changed.
abbrev pub Copied : List Action → Loop → Loop → Type 0
Copied xs l l' =
    ((held : Held)
      → shown l'.dispatcher.requests held ≡ replay xs (shown l.dispatcher.requests held))
    × IsCopying l'
    × (l'.input_devices ≡ l.input_devices)

Copied-append :
    (xs ys : List Action) (l l1 l2 : Loop)
    → Copied xs l l1
    → Copied ys l1 l2
    → Copied (xs ++ ys) l l2
Copied-append xs ys l l1 l2 (h, c, e) (h', c', e') = (
  λ held.
      h' held
      ∙ ap (replay ys) (h held)
      ∙ sym (replay-append xs ys (shown l.dispatcher.requests held)),
  c',
  e' ∙ e,
)

-- A round in which the timer is not due and the watchers have nothing to tell.
abbrev pub key_round : KeyInput → Round
key_round inputs = record {
  timer = none;
  readable = fetches inputs;
  device_events = none;
  config_events = none;
  opens = λ path. none;
  can_watch = λ path. false;
}

-- Rounds in which only keys come in, whatever a reload would meet.
abbrev pub key_rounds : List (KeyInput × Reload) → List (Round × Reload)
key_rounds rounds = map (λ (r : KeyInput × Reload). (key_round r.0, r.1)) rounds

abbrev pub sent_by_all : DeviceMap → List (KeyInput × Reload) → List Action
sent_by_all m [] = []
sent_by_all m ((inputs, r) ∷ more) = sent m inputs ++ sent_by_all m more

module _ (setup : Setup) (all_succeed : (n : ℕ) → setup.succeeds n ≡ true) where
  handle_device-Copied :
      (es : TimedKeys) (o : Option InputDevice) (l : Loop)
      → IsCopying l
      → (l' : Loop) × (handle_device setup (fetched (reported es)) o l ≡ ok (true, l'))
        × Copied (actions_at o es) l l'
  unfolding handle_input_events replay
  handle_device-Copied es none l c = (l, refl, (λ held. refl, c, refl))
  handle_device-Copied es (some d) l c =
      let (s', d', run, shows, idle, none') =
        handle_events-forwards setup.succeeds l.config (received (to_info d) es) l.handler
          l.dispatcher all_succeed c.0 c.1 c.2 in
      (
        record l { handler = s'; dispatcher = d' },
        rw (new_events-reported (to_info d) es) (rw run refl),
        (
          λ held.
              shows held
              ∙ ap (λ xs. replay xs (shown l.dispatcher.requests held))
                  (forwarded-received (to_info d) es),
          (c.0, idle, none'),
          refl,
        ),
      )

  handle_devices-Copied :
      (inputs : KeyInput) (l : Loop)
      → IsCopying l
      → (l' : Loop) × (handle_devices setup (fetches inputs) l ≡ ok (true, l'))
        × Copied (sent l.input_devices inputs) l l'
  unfolding handle_devices replay
  handle_devices-Copied [] l c = (l, refl, (λ held. refl, c, refl))
  handle_devices-Copied ((p, es) ∷ more) l c =
      let (l1, run, first) = handle_device-Copied es (get_device p l.input_devices) l c in
      let (l2, run', rest) = handle_devices-Copied more l1 first.1 in
      let rest' = subst (λ (m : DeviceMap). Copied (sent m more) l1 l2) first.2 rest in
      (
        l2,
        ap (λ o. o >>= if_exists (handle_devices setup (fetches more))) run ∙ run',
        Copied-append (actions_at (get_device p l.input_devices) es) (sent l.input_devices more) l
            l1 l2 first rest',
      )

  after_devices-next :
      (inputs : KeyInput) (watches watches' : Bool) (l : Loop)
      → watch setup watches watches' (key_round inputs) l ≡ ok (next_round, l)
  after_devices-next inputs true true l = refl
  after_devices-next inputs true false l = refl
  after_devices-next inputs false true l = refl
  after_devices-next inputs false false l = refl

  run_round-Copied :
      (inputs : KeyInput) (l : Loop)
      → IsCopying l
      → (l' : Loop) × (run_round setup (key_round inputs) l ≡ ok (next_round, l'))
        × Copied (sent l.input_devices inputs) l l'
  unfolding run_round
  run_round-Copied inputs l c =
      let (l', run, copied) = handle_devices-Copied inputs l c in
      (
        l',
        ap (λ o. o >>= after_devices setup (key_round inputs)) run
            ∙ after_devices-next inputs setup.watch_devices setup.watch_config l',
        copied,
      )

  -- All requests to the virtual device succeed. From an empty configuration and an idle handler with
  -- no actions, any row of rounds in which only keys come in goes on without an error, a panic or a
  -- reload; the keys that the device then holds are those that the events of all devices that are
  -- read leave down, in their order; and the handler is idle again, with no actions.
  pub run_rounds-Copied :
      (rounds : List (KeyInput × Reload)) (l : Loop)
      → IsCopying l
      → (l' : Loop) × (run_rounds setup (key_rounds rounds) l ≡ ok l')
        × Copied (sent_by_all l.input_devices rounds) l l'
  unfolding run_rounds reload replay
  run_rounds-Copied [] l c = (l, refl, (λ held. refl, c, refl))
  run_rounds-Copied ((inputs, r) ∷ more) l c =
      let (l1, run, first) = run_round-Copied inputs l c in
      let (l2, run', rest) = run_rounds-Copied more l1 first.1 in
      (
        l2,
        ap (λ o. o >>= (λ after. reload setup r after >>= run_rounds setup (key_rounds more))) run
            ∙ run',
        Copied-append (sent l.input_devices inputs) (sent_by_all l.input_devices more) l l1 l2 first
            (subst (λ (m : DeviceMap). Copied (sent_by_all m more) l1 l2) first.2 rest),
      )
