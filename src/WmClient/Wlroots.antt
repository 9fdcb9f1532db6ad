-- ===== src/WmClient/Wlroots.antt =====
-- client/wlroots_client.rs: the windows that the compositor tells of, and the active one. An object's
-- id is a number; the events of the registry, which are only logged, are left out.
pub mod History
pub mod Queries
use ahk_wayland.Prelude.{
  ℕ, Bool, true, false, Option, none, some, List, [], ◌∷◌, Text, text, contains, map_get,
  map_insert, map_remove, if◌then◌else◌,
}

pub record State : Type 0 where
  pub active_window : Option ℕ
  pub windows : List (ℕ × Text)
  pub titles : List (ℕ × Text)

-- `State::default`
abbrev pub no_windows : State
no_windows = record { active_window = none; windows = []; titles = [] }

-- The events of the manager and of the window handles.
pub data WindowEvent : Type 0 where
  toplevel : ℕ → WindowEvent
  app_id : ℕ → Text → WindowEvent
  title : ℕ → Text → WindowEvent
  closed : ℕ → WindowEvent
  state : ℕ → List ℕ → WindowEvent
  other : WindowEvent

abbrev pub unknown_name : Text
unknown_name = text "<unknown>"

-- The two `event` functions, at the value of `HandleState::Activated`.
unfoldable pub on_window_event : ℕ → State → WindowEvent → State
on_window_event activated s (toplevel id) = record s {
  windows = map_insert id unknown_name s.windows;
  titles = map_insert id unknown_name s.titles;
}
on_window_event activated s (app_id id name) = record s { windows = map_insert id name s.windows }
on_window_event activated s (title id name) = record s { titles = map_insert id name s.titles }
on_window_event activated s (closed id) = record s {
  windows = map_remove id s.windows;
  titles = map_remove id s.titles;
}
on_window_event activated s (state id states) =
    if contains states activated then record s { active_window = some id } else s
on_window_event activated s other = s

-- The events of a round trip, in their order.
unfoldable pub on_window_events : ℕ → State → List WindowEvent → State
unfolding on_window_event
on_window_events activated s [] = s
on_window_events activated s (e ∷ es) =
    on_window_events activated (on_window_event activated s e) es

-- How a round trip, or a connection with its first round trip, ends: the events that it brings, and
-- whether there is an error.
pub record Trip : Type 0 where
  pub events : List WindowEvent
  pub succeeds : Bool

-- Whether there is a queue, and the state.
pub record WlRootsClient : Type 0 where
  pub queue : Bool
  pub state : State

-- `WlRootsClient::new`
abbrev pub new_wlroots : WlRootsClient
new_wlroots = record { queue = false; state = no_windows }

-- The queue is set just if nothing failed; the state is kept from an earlier connection.
unfoldable pub connect : ℕ → Trip → WlRootsClient → Bool × WlRootsClient
unfolding on_window_events
connect activated trip c = (
  trip.succeeds,
  record c {
    queue = if trip.succeeds then true else c.queue;
    state = on_window_events activated c.state trip.events;
  },
)

pub data Wanted : Type 0 where
  window application : Wanted

abbrev pub answer : Wanted → State → Option Text
answer window s = elim s.active_window [ none ↦ none | some id ↦ map_get id s.titles ]
answer application s = elim s.active_window [ none ↦ none | some id ↦ map_get id s.windows ]

abbrev reconnected : Wanted → Bool × WlRootsClient → Option Text × WlRootsClient
reconnected q (true, c) = (answer q c.state, c)
reconnected q (false, c) = (none, c)

-- `current_window` and `current_application`: what the round trip brings, and what the new
-- connection brings if the round trip fails.
unfoldable pub query : ℕ → Wanted → Trip → Trip → WlRootsClient → Option Text × WlRootsClient
unfolding connect
query activated q trip again c =
    let arrived = record c { state = on_window_events activated c.state trip.events } in
    if c.queue
    then (if trip.succeeds
        then (answer q arrived.state, arrived)
        else reconnected q (connect activated again arrived))
    else (none, c)
