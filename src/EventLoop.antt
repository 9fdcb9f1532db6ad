-- ===== src/EventLoop.antt =====
-- main.rs, handle_events: a round of the event loop, from the events to the virtual device.
pub mod Forwarding
pub mod Input
pub mod Rounds
pub mod Runs
pub mod OwnDevice
pub mod Copying
use ahk_wayland.Prelude.{ℕ, Bool, List}
use ahk_wayland.Event.{Action}
use ahk_wayland.Config.Types.{Config}
use ahk_wayland.Handler.State.{EventHandler, Env, Outcome, ok, ◌>>=◌}
use ahk_wayland.Handler.OnEvent.{Event, on_events}
use ahk_wayland.Dispatcher.{ActionDispatcher, Ran, dispatch_all}

-- The handler as it is after the events, and how its actions were carried out. An error of the handler
-- comes before any of them.
unfoldable pub handle_events :
    (ℕ → Bool)
    → Config
    → List (Env × Event)
    → EventHandler
    → ActionDispatcher
    → Outcome (EventHandler × Ran)
unfolding on_events dispatch_all
handle_events succeeds config events handler dispatcher = do
  (actions, handler') ← on_events config events handler
  ok (handler', dispatch_all succeeds actions dispatcher)
