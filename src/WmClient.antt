-- ===== src/WmClient.antt =====
-- client/mod.rs: the client of the window manager. The output to the log is left out.
pub mod Answers
pub mod Desktops
pub mod Kde
pub mod Wlroots
pub mod X11
use ahk_wayland.Prelude.{
  ℕ, ◌+◌, Bool, true, false, not, ◌&&◌, ◌||◌, Option, none, some, List, [], ◌∷◌, Text, text_eq,
  if◌then◌else◌,
}

-- `dyn Client`: its answers to the n-th call of `supported`, and to the n-th of the two queries.
pub record Client : Type 0 where
  pub supported : ℕ → Bool
  pub current_application : ℕ → Option Text
  pub current_window : ℕ → Option Text

-- The fields but the name and the client, and how often the client was called.
pub record WmClient : Type 0 where
  pub supported : Option Bool
  pub last_application : Text
  pub last_window : Text
  pub asked : ℕ
  pub queries : ℕ

-- `WMClient::new`
abbrev pub new_client : WmClient
new_client = record {
  supported = none;
  last_application = [];
  last_window = [];
  asked = 0;
  queries = 0;
}

-- The answer that is kept, or the client's, which is kept from then on.
unfoldable pub is_supported : Client → WmClient → Bool × WmClient
is_supported client w = elim w.supported [
  | some b ↦ (b, w)
  | none ↦ (
    client.supported w.asked,
    record w { supported = some (client.supported w.asked); asked = w.asked + 1 },
  )
]

abbrev pub if_new : Option Text → Text → Text
if_new none last = last
if_new (some s) last = if text_eq last s then last else s

abbrev pub window_result : Client → Bool × WmClient → Option Text × WmClient
window_result client (false, w) = (none, w)
window_result client (true, w) =
    let result = client.current_window w.queries in
    (result, record w { last_window = if_new result w.last_window; queries = w.queries + 1 })

abbrev pub application_result : Client → Bool × WmClient → Option Text × WmClient
application_result client (false, w) = (none, w)
application_result client (true, w) =
    let result = client.current_application w.queries in
    (
      result,
      record w { last_application = if_new result w.last_application; queries = w.queries + 1 },
    )

unfoldable pub current_window : Client → WmClient → Option Text × WmClient
unfolding is_supported
current_window client w = window_result client (is_supported client w)

unfoldable pub current_application : Client → WmClient → Option Text × WmClient
unfolding is_supported
current_application client w = application_result client (is_supported client w)

-- The features of a build, and the client that it has.
pub record Features : Type 0 where
  pub gnome : Bool
  pub kde : Bool
  pub hypr : Bool
  pub x11 : Bool
  pub wlroots : Bool
  pub niri : Bool

pub data ClientKind : Type 0 where
  gnome_client kde_client hypr_client x11_client wlroots_client niri_client null_client : ClientKind

-- The first `return` that its `cfg` lets stand.
unfoldable pub build_client : Features → Option ClientKind
build_client f =
    if f.gnome
    then some gnome_client
    else if f.kde && not f.gnome
    then some kde_client
    else if f.hypr && not (f.gnome || f.kde)
    then some hypr_client
    else if f.x11 && not (f.gnome || f.kde || f.hypr)
    then some x11_client
    else if f.wlroots && not (f.gnome || f.x11 || f.hypr || f.kde)
    then some wlroots_client
    else if f.niri && not (f.gnome || f.x11 || f.hypr || f.kde || f.wlroots)
    then some niri_client
    else if not (f.gnome || f.x11 || f.hypr || f.kde || f.wlroots || f.niri)
    then some null_client
    else none
