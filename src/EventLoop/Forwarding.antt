-- ===== src/EventLoop/Forwarding.antt =====
-- main.rs, handle_events: key events with an empty configuration.
use ahk_wayland.Prelude.{ℕ, ◌≡◌, refl, ◌∙◌, Bool, true, List, [], ◌∷◌}
use ahk_wayland.Config.Types.{Config}
use ahk_wayland.Keyboard.{Held, replay}
use ahk_wayland.Handler.State.{EventHandler, ok}
use ahk_wayland.Handler.Idle.{IsEmptyConfig, IsIdle}
use ahk_wayland.Handler.Passthrough.{Arrival, arrivals, forwarded, on_events-forwards}
use ahk_wayland.Dispatcher.{ActionDispatcher, done}
use ahk_wayland.Dispatcher.Shown.{shown, all_spelled, dispatch_all-shown}
use ahk_wayland.EventLoop.{handle_events}

all_spelled-replay :
    (es : List Arrival) (held : Held) → all_spelled (forwarded es) held ≡ replay (forwarded es) held
unfolding replay
all_spelled-replay [] held = refl
all_spelled-replay (e ∷ es) held = all_spelled-replay es _

-- With an empty configuration, an idle handler with no actions and a device that accepts all events,
-- a round of key events ends well, the device holds just the keys that those events leave down if
-- they are put in one row, and the handler is idle again, with no actions.
pub handle_events-forwards :
    (succeeds : ℕ → Bool) (config : Config) (es : List Arrival) (s : EventHandler)
    (d : ActionDispatcher)
    → ((n : ℕ) → succeeds n ≡ true)
    → IsEmptyConfig config
    → IsIdle s
    → s.actions ≡ []
    → (s' : EventHandler) × (d' : ActionDispatcher) × (handle_events succeeds config
          (arrivals es)
          s
          d
        ≡ ok (s', done d'))
      × ((held : Held) → shown d'.requests held ≡ replay (forwarded es) (shown d.requests held))
      × IsIdle s'
      × (s'.actions ≡ [])
unfolding handle_events
handle_events-forwards succeeds config es s d all_succeed empty idle none_yet =
    let (s', run, idle', none') = on_events-forwards config es s empty idle none_yet in
    let (d', ran, shows) = dispatch_all-shown succeeds (forwarded es) d all_succeed in
    (
      s',
      d',
      rw (run, ran) refl,
      λ held. shows held ∙ all_spelled-replay es (shown d.requests held),
      idle',
      none',
    )
