-- ===== src/WmClient/Wlroots/History.antt =====
-- client/wlroots_client.rs: what the state keeps of the events so far.
use ahk_wayland.Prelude.{
  ℕ, ◌≡◌, refl, ap, ◌∙◌, true, false, Option, none, some, List, [], ◌∷◌, Text, contains, map_get,
  map_get-insert, map_get-remove, ◌==◌, if◌then◌else◌,
}
use ahk_wayland.WmClient.Wlroots.{
  State, no_windows, WindowEvent, toplevel, app_id, title, closed, state, other, unknown_name,
  on_window_event, on_window_events, Wanted, window, application, answer,
}

-- The window that was activated last; the newest event comes first.
abbrev pub last_activated : ℕ → List WindowEvent → Option ℕ
last_activated a [] = none
last_activated a (state id states ∷ es) =
    let before = last_activated a es in if contains states a then some id else before
last_activated a (_ ∷ es) = last_activated a es

-- The name that a window was given last, if it was not closed since.
abbrev pub last_name : Wanted → ℕ → List WindowEvent → Option Text
last_name q id [] = none
last_name q id (toplevel i ∷ es) =
    let before = last_name q id es in if i == id then some unknown_name else before
last_name q id (closed i ∷ es) = let before = last_name q id es in if i == id then none else before
last_name application id (app_id i name ∷ es) =
    let before = last_name application id es in if i == id then some name else before
last_name window id (title i name ∷ es) =
    let before = last_name window id es in if i == id then some name else before
last_name q id (_ ∷ es) = last_name q id es

abbrev pub last_answer : ℕ → Wanted → List WindowEvent → Option Text
last_answer a q es = elim (last_activated a es) [ none ↦ none | some id ↦ last_name q id es ]

abbrev pub names : Wanted → State → List (ℕ × Text)
names window s = s.titles
names application s = s.windows

-- The state tells of a history what the answers need.
abbrev pub Tells : ℕ → List WindowEvent → State → Type 0
Tells a es s =
    (s.active_window ≡ last_activated a es)
    × ((q : Wanted) (id : ℕ) → map_get id (names q s) ≡ last_name q id es)

on_window_event-names :
    (a : ℕ) (es : List WindowEvent) (s : State) (e : WindowEvent) (q : Wanted) (id : ℕ)
    → ((q' : Wanted) (i : ℕ) → map_get i (names q' s) ≡ last_name q' i es)
    → map_get id (names q (on_window_event a s e)) ≡ last_name q id (e ∷ es)
unfolding on_window_event
on_window_event-names a es s (toplevel i) window id h =
    rw (map_get-insert i unknown_name s.titles id) (rw (h window id) refl)
on_window_event-names a es s (toplevel i) application id h =
    rw (map_get-insert i unknown_name s.windows id) (rw (h application id) refl)
on_window_event-names a es s (app_id i name) window id h = h window id
on_window_event-names a es s (app_id i name) application id h =
    rw (map_get-insert i name s.windows id) (rw (h application id) refl)
on_window_event-names a es s (title i name) window id h =
    rw (map_get-insert i name s.titles id) (rw (h window id) refl)
on_window_event-names a es s (title i name) application id h = h application id
on_window_event-names a es s (closed i) window id h =
    rw (map_get-remove i s.titles id) (rw (h window id) refl)
on_window_event-names a es s (closed i) application id h =
    rw (map_get-remove i s.windows id) (rw (h application id) refl)
on_window_event-names a es s (state i states) window id h =
    elim (contains states a)
      as (λ b.
        map_get id (if b then record s { active_window = some i } else s).titles
        ≡ last_name window id es) [ true ↦ h window id | false ↦ h window id ]
on_window_event-names a es s (state i states) application id h =
    elim (contains states a)
      as (λ b.
        map_get id (if b then record s { active_window = some i } else s).windows
        ≡ last_name application id es) [ true ↦ h application id | false ↦ h application id ]
on_window_event-names a es s other window id h = h window id
on_window_event-names a es s other application id h = h application id

on_window_event-active :
    (a : ℕ) (es : List WindowEvent) (s : State) (e : WindowEvent)
    → s.active_window ≡ last_activated a es
    → (on_window_event a s e).active_window ≡ last_activated a (e ∷ es)
unfolding on_window_event
on_window_event-active a es s (toplevel i) h = h
on_window_event-active a es s (app_id i name) h = h
on_window_event-active a es s (title i name) h = h
on_window_event-active a es s (closed i) h = h
on_window_event-active a es s (state i states) h =
    elim (contains states a)
      as (λ b.
        (if b then record s { active_window = some i } else s).active_window
        ≡ (if b then some i else last_activated a es)) [ true ↦ refl | false ↦ h ]
on_window_event-active a es s other h = h

-- The history after further events.
abbrev pub after : List WindowEvent → List WindowEvent → List WindowEvent
after es [] = es
after es (e ∷ more) = after (e ∷ es) more

pub on_window_events-Tells :
    (a : ℕ) (more es : List WindowEvent) (s : State)
    → Tells a es s
    → Tells a (after es more) (on_window_events a s more)
unfolding on_window_events
on_window_events-Tells a [] es s h = h
on_window_events-Tells a (e ∷ more) es s h =
    on_window_events-Tells a more (e ∷ es) (on_window_event a s e)
      (on_window_event-active a es s e h.0, λ q id. on_window_event-names a es s e q id h.1)

-- The answer of a client that keeps a history.
answer_at-names :
    (q : Wanted) (es : List WindowEvent) (s : State) (active : Option ℕ)
    → ((id : ℕ) → map_get id (names q s) ≡ last_name q id es)
    → answer q (record s { active_window = active })
      ≡ elim active [ none ↦ none | some id ↦ last_name q id es ]
answer_at-names window es s none h = refl
answer_at-names application es s none h = refl
answer_at-names window es s (some id) h = h id
answer_at-names application es s (some id) h = h id

pub answer-Tells :
    (a : ℕ) (q : Wanted) (es : List WindowEvent) (s : State)
    → Tells a es s
    → answer q s ≡ last_answer a q es
answer-Tells a q es s h =
    answer_at-names q es s s.active_window (h.1 q)
    ∙ ap (λ (o : Option ℕ). elim o [ none ↦ none | some id ↦ last_name q id es ]) h.0

no_names : (q : Wanted) (id : ℕ) → map_get id (names q no_windows) ≡ last_name q id []
no_names window id = refl
no_names application id = refl

pub no_windows-Tells : (a : ℕ) → Tells a [] no_windows
no_windows-Tells a = (refl, no_names)
