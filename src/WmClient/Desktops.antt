-- ===== src/WmClient/Desktops.antt =====
-- client/gnome_client.rs, niri_client.rs, hypr_client.rs and null_client.rs: the clients that ask the
-- compositor at each query. The output to the log is left out.
use ahk_wayland.Prelude.{
  ℕ, ◌+◌, Bool, true, false, ◌&&◌, Option, none, some, List, [], ◌∷◌, Text, if◌then◌else◌,
}
use ahk_wayland.WmClient.Answers.{Query, application, window}

-- The methods of the GNOME extension, and what a call comes to: an error, or a message whose body is
-- a string or is not.
pub data Method : Type 0 where
  active_window wm_class : Method

pub data Called : Type 0 where
  refused : Called
  message : Option Text → Called

-- What is asked of the session bus: the n-th connection and the n-th call; and the JSON reader: the
-- fields of an `ActiveWindow`, of which each may be missing.
pub record Bus : Type 0 where
  pub connects : ℕ → Bool
  pub calls : ℕ → Method → Called
  pub from_json : Text → Option (Option Text × Option Text)

pub record GnomeClient : Type 0 where
  pub connection : Bool
  pub attempts : ℕ
  pub called : ℕ

pub record ActiveWindow : Type 0 where
  pub wm_class : Text
  pub title : Text

abbrev or_empty : Option Text → Text
or_empty none = []
or_empty (some s) = s

abbrev of_fields : Option (Option Text × Option Text) → Option ActiveWindow
of_fields none = none
of_fields (some (class, title)) =
    some (record { wm_class = or_empty class; title = or_empty title })

abbrev window_of : Bus → Called → Option ActiveWindow
window_of bus refused = none
window_of bus (message none) = none
window_of bus (message (some json)) = of_fields (bus.from_json json)

-- A failure keeps an earlier connection.
unfoldable pub connect_gnome : Bus → GnomeClient → GnomeClient
connect_gnome bus c = record c {
  connection = if bus.connects c.attempts then true else c.connection;
  attempts = c.attempts + 1;
}

abbrev count : GnomeClient → GnomeClient
count c = record c { called = c.called + 1 }

-- The legacy protocol is asked just if the call of the latest is an error.
abbrev ask_class : Bus → Called → GnomeClient → Option Text × GnomeClient
ask_class bus refused c = elim (bus.calls c.called wm_class) [
  | refused ↦ (none, count c)
  | message body ↦ (body, count c)
]
ask_class bus (message body) c = elim (window_of bus (message body)) [
  | none ↦ (none, c)
  | some w ↦ (some w.wm_class, c)
]

unfoldable pub gnome_application : Bus → GnomeClient → Option Text × GnomeClient
unfolding connect_gnome
gnome_application bus c =
    let c' = connect_gnome bus c in
    if c'.connection
    then ask_class bus (bus.calls c'.called active_window) (count c')
    else (none, c')

-- `get_focused_title`, whose errors are none.
unfoldable pub gnome_window : Bus → GnomeClient → Option Text × GnomeClient
unfolding connect_gnome
gnome_window bus c =
    let c' = connect_gnome bus c in
    if c'.connection
    then (elim (window_of bus (bus.calls c'.called active_window)) [
      | none ↦ (none, count c')
      | some w ↦ (some w.title, count c')
    ])
    else (none, c')

unfoldable pub gnome_supported : Bus → GnomeClient → Bool × GnomeClient
unfolding gnome_application
gnome_supported bus c =
    let (found, c') = gnome_application bus (connect_gnome bus c) in
    (elim found [ none ↦ false | some name ↦ true ], c')

-- A window of niri.
pub record NiriWindow : Type 0 where
  pub title : Option Text
  pub app_id : Option Text
  pub is_focused : Bool

-- What a query finds: the windows, or none if the socket, the request or the response is not right.
unfoldable pub get_active_window : Option (List NiriWindow) → Option NiriWindow
get_active_window none = none
get_active_window (some []) = none
get_active_window (some (w ∷ ws)) =
    let rest = get_active_window (some ws) in if w.is_focused then some w else rest

abbrev or_else : Option Text → Option Text → Option Text
or_else none b = b
or_else (some a) b = some a

unfoldable pub niri_answer : Query → Option (List NiriWindow) → Option Text
unfolding get_active_window
niri_answer q ws = elim (get_active_window ws) [
  | none ↦ none
  | some w ↦ elim q [ window ↦ or_else w.title w.app_id | application ↦ or_else w.app_id w.title ]
]

-- NIRI_SOCKET is a path, there is such a file, and a connection to it succeeds.
unfoldable pub niri_supported : Bool → Bool → Bool → Bool
niri_supported is_set exists connects = is_set && exists && connects

-- Hyprland's active window: its title and class, none if there is none or it is an error.
unfoldable pub hypr_answer : Query → Option (Text × Text) → Option Text
hypr_answer q none = none
hypr_answer window (some (title, class)) = some title
hypr_answer application (some (title, class)) = some class

unfoldable pub null_answer : Query → Option Text
null_answer q = none
