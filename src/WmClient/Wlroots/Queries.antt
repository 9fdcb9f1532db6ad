-- ===== src/WmClient/Wlroots/Queries.antt =====
-- client/wlroots_client.rs: the answers to a row of queries, over lost connections too.
use ahk_wayland.Prelude.{
  ℕ, ◌≡◌, refl, sym, map, ap, ◌∙◌, Bool, true, false, ◌||◌, Option, none, List, [], ◌∷◌, Text,
  if◌then◌else◌,
}
use mathlib.Core.Path.{subst}
use ahk_wayland.WmClient.Wlroots.{
  State, no_windows, WindowEvent, on_window_events, Trip, WlRootsClient, new_wlroots, connect,
  Wanted, query,
}
use ahk_wayland.WmClient.Wlroots.History.{
  last_answer, Tells, after, on_window_events-Tells, answer-Tells, no_windows-Tells,
}

-- A query, with the events of its round trip and of the new connection, if there is one.
pub record Asked : Type 0 where
  pub wanted : Wanted
  pub trip : Trip
  pub again : Trip

-- The answers of a client that is connected, in their order.
unfoldable pub query_all : ℕ → List Asked → WlRootsClient → List (Option Text)
unfolding query
query_all a [] c = []
query_all a (q ∷ qs) c =
    let (text, c') = query a q.wanted q.trip q.again c in text ∷ query_all a qs c'

-- The events that a query brings.
abbrev pub brought : List WindowEvent → Asked → List WindowEvent
brought es q =
    if q.trip.succeeds
    then after es q.trip.events
    else after (after es q.trip.events) q.again.events

-- What each query should answer, after a history: the name of the window that was activated last, by
-- the events of all connections; none if neither the round trip nor a new connection succeeds.
abbrev answered : ℕ → List WindowEvent → Asked → Option Text
answered a es q =
    if q.trip.succeeds || q.again.succeeds then last_answer a q.wanted (brought es q) else none

abbrev pub expected_names : ℕ → List WindowEvent → List Asked → List (Option Text)
expected_names a es [] = []
expected_names a es (q ∷ qs) = answered a es q ∷ expected_names a (brought es q) qs

abbrev Queried : ℕ → List WindowEvent → Asked → Option Text × WlRootsClient → Type 0
Queried a es q r = (r.0 ≡ answered a es q) × (r.1.queue ≡ true) × Tells a (brought es q) r.1.state

abbrev asked : Wanted → List WindowEvent → Bool → List WindowEvent → Bool → Asked
asked wanted t b u b' = record {
  wanted = wanted;
  trip = record { events = t; succeeds = b };
  again = record { events = u; succeeds = b' };
}

abbrev Answers : ℕ → List WindowEvent → Asked → WlRootsClient → Type 0
Answers a es q c = Queried a es q (query a q.wanted q.trip q.again c)

connected-Answers :
    (a : ℕ) (es : List WindowEvent) (wanted : Wanted) (t : List WindowEvent) (b : Bool)
    → (u : List WindowEvent) (b' : Bool) (s : State) → Tells a es s
    → Answers a es (asked wanted t b u b') (record { queue = true; state = s })
unfolding query connect
connected-Answers a es wanted t true u b' s h =
    let r = on_window_events-Tells a t es s h in
    (answer-Tells a wanted (after es t) (on_window_events a s t) r, refl, r)
connected-Answers a es wanted t false u true s h =
    let r =
      on_window_events-Tells a u (after es t) (on_window_events a s t)
        (on_window_events-Tells a t es s h) in
    (
      answer-Tells a wanted (after (after es t) u) (on_window_events a (on_window_events a s t) u)
          r,
      refl,
      r,
    )
connected-Answers a es wanted t false u false s h = (
  refl,
  refl,
  on_window_events-Tells a u (after es t) (on_window_events a s t)
      (on_window_events-Tells a t es s h),
)

query-Answers :
    (a : ℕ) (es : List WindowEvent) (q : Asked) (c : WlRootsClient)
    → c.queue ≡ true
    → Tells a es c.state
    → Answers a es q c
query-Answers a es q c e h =
    subst (λ (b : Bool). Answers a es q (record { queue = b; state = c.state })) (sym e)
      (connected-Answers a es q.wanted q.trip.events q.trip.succeeds q.again.events q.again.succeeds
        c.state h)

query_all-none : (a : ℕ) (c : WlRootsClient) → query_all a [] c ≡ []
unfolding query_all
query_all-none a c = refl

query_all-step :
    (a : ℕ) (q : Asked) (qs : List Asked) (c : WlRootsClient)
    → query_all a (q ∷ qs) c
      ≡ (query a q.wanted q.trip q.again c).0 ∷ query_all a qs (query a q.wanted q.trip q.again c).1
unfolding query_all
query_all-step a q qs c = refl

query_all-expected :
    (a : ℕ) (es : List WindowEvent) (qs : List Asked) (c : WlRootsClient)
    → c.queue ≡ true
    → Tells a es c.state
    → query_all a qs c ≡ expected_names a es qs
query_all-expected a es [] c e h = query_all-none a c
query_all-expected a es (q ∷ qs) c e h =
    let r = query-Answers a es q c e h in
    query_all-step a q qs c
    ∙ ap (λ (x : Option Text). x ∷ query_all a qs (query a q.wanted q.trip q.again c).1) r.0
    ∙ ap (λ (l : List (Option Text)). answered a es q ∷ l)
        (query_all-expected a (brought es q) qs (query a q.wanted q.trip q.again c).1 r.1 r.2)

unconnected-answers :
    (a : ℕ) (qs : List Asked) (c : WlRootsClient)
    → c.queue ≡ false
    → query_all a qs c ≡ map (λ q. none) qs
unfolding query_all
unconnected-answers a [] c e = refl
unconnected-answers a (q ∷ qs) c e = rw e (
    ap (λ (l : List (Option Text)). none ∷ l)
      (unconnected-answers a qs (record c { queue = false }) refl))

connect-queue :
    (a : ℕ) (es : List WindowEvent) (b : Bool)
    → (connect a (record { events = es; succeeds = b }) new_wlroots).1.queue ≡ b
unfolding connect
connect-queue a es true = refl
connect-queue a es false = refl

connect-state :
    (a : ℕ) (es : List WindowEvent) (b : Bool)
    → (connect a (record { events = es; succeeds = b }) new_wlroots).1.state
      ≡ on_window_events a no_windows es
unfolding connect
connect-state a es b = refl

from_first :
    (a : ℕ) (es : List WindowEvent) (b : Bool) (qs : List Asked)
    → query_all a qs (connect a (record { events = es; succeeds = b }) new_wlroots).1
      ≡ (if b then expected_names a (after [] es) qs else map (λ q. none) qs)
from_first a es true qs =
    query_all-expected a (after [] es) qs
      (connect a (record { events = es; succeeds = true }) new_wlroots).1 (connect-queue a es true)
      (subst (Tells a (after [] es)) (sym (connect-state a es true))
        (on_window_events-Tells a es [] no_windows (no_windows-Tells a)))
from_first a es false qs =
    unconnected-answers a qs (connect a (record { events = es; succeeds = false }) new_wlroots).1
      (connect-queue a es false)

-- The answers of a new client, in their order. If its connection fails, they are all none. If not,
-- each is what the events so far, of the lost connections too, give for the window that was
-- activated last: the newest name that it was given, or none if it was closed since; an answer is
-- none too where neither the round trip nor a new connection succeeds.
pub query_all-history :
    (activated : ℕ) (first : Trip) (qs : List Asked)
    → query_all activated qs (connect activated first new_wlroots).1 ≡ (
        if first.succeeds
        then expected_names activated (after [] first.events) qs
        else map (λ q. none) qs)
query_all-history activated first qs = from_first activated first.events first.succeeds qs
