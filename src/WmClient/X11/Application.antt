-- ===== src/WmClient/X11/Application.antt =====
-- client/x11_client.rs: the application and the title of the focused window.
use ahk_wayland.Prelude.{
  ℕ, zero, suc, ◌+◌, ◌*◌, ◌^◌, Option, none, some, List, [], ◌∷◌, Text, text, text_eq, ◌==◌,
  if◌then◌else◌, get_elem?,
}
use ahk_wayland.Handler.State.{Outcome, ok, panic, out_of_fuel, ◌>>=◌}
use ahk_wayland.WmClient.X11.{
  Server, PropertyReply, active_window, net_wm_name, wm_name, X11Client, Connection, connect,
  get_cookie_reply_with_reconnect,
}
use ahk_wayland.WmClient.X11.WmClass.{get_wm_class}

abbrev count : X11Client → X11Client
count c = record c { asked = c.asked + 1 }

-- A request on the connection that there is, with no second try: an error is none.
abbrev pub direct : {A : Type 0} → (ℕ → Option A) → X11Client → Option A × X11Client
direct ask c = (ask c.asked, record c { asked = c.asked + 1 })

-- `u32::from_le_bytes`, of four bytes.
abbrev pub from_le_bytes : List ℕ → Option ℕ
from_le_bytes (a ∷ b ∷ c ∷ d ∷ []) = some (a + b * 2 ^ 8 + c * 2 ^ 16 + d * 2 ^ 24)
from_le_bytes _ = none

-- The window of _NET_ACTIVE_WINDOW, if the reply has one.
abbrev pub active_of : PropertyReply → Option ℕ
active_of r =
    if r.typed
    then elim (from_le_bytes r.value) [ none ↦ none | some w ↦ if w == 0 then none else some w ]
    else none

abbrev pub active_or_focus : Server → Option PropertyReply × X11Client → Option ℕ × X11Client
active_or_focus x (none, c) = (none, c)
active_or_focus x (some r, c) = elim (active_of r) [
  | some w ↦ (some w, c)
  | none ↦ direct x.input_focus c
]

-- An error is none; a screen that there is not is a panic.
unfoldable pub get_focused_window_id :
    Server → Connection → ℕ → X11Client → Outcome (Option ℕ × X11Client)
get_focused_window_id x conn screen c = elim (get_elem? conn.roots screen) [
  | none ↦ panic
  | some root ↦
      if x.atoms c.asked
      then ok (active_or_focus x (direct (λ n. x.property n active_window root) (count c)))
      else ok (none, count c)
]

abbrev pub class_of_window : Server → Option ℕ × X11Client → Outcome (Option Text × X11Client)
class_of_window x (none, c) = ok (none, c)
class_of_window x (some w, c) = get_wm_class x w c

abbrev pub fallback_on :
    Server → Option Connection → Option ℕ → X11Client → Outcome (Option Text × X11Client)
fallback_on x (some conn) (some screen) c = do
  found ← get_focused_window_id x conn screen c
  class_of_window x found
fallback_on x _ _ c = ok (none, c)

unfoldable pub current_application_fallback : Server → X11Client → Outcome (Option Text × X11Client)
unfolding get_focused_window_id
current_application_fallback x c = fallback_on x c.connection c.screen_num c

abbrev pub proxy_class : Text
proxy_class = text "Focus-Proxy-Window.FocusProxy"

-- A class that is not the proxy's.
abbrev pub own_class : Option Text → Option Text
own_class none = none
own_class (some name) = if text_eq name proxy_class then none else some name

abbrev pub get_parent_window : Server → ℕ → X11Client → Option ℕ × X11Client
get_parent_window x w c = get_cookie_reply_with_reconnect x (λ n. x.parent n w) c

-- What the loop does where a window has no class of its own; the rest of the loop is passed in.
abbrev pub with_parent :
    Server
    → (ℕ → X11Client → Outcome (Option Text × X11Client))
    → Option ℕ × X11Client
    → Outcome (Option Text × X11Client)
with_parent x go_on (none, c) = ok (none, c)
with_parent x go_on (some zero, c) = current_application_fallback x c
with_parent x go_on (some (suc w), c) = go_on (suc w) c

abbrev pub unless_named :
    Server
    → ℕ
    → (ℕ → X11Client → Outcome (Option Text × X11Client))
    → X11Client
    → Option Text
    → Outcome (Option Text × X11Client)
unless_named x w go_on c (some name) = ok (some name, c)
unless_named x w go_on c none = with_parent x go_on (get_parent_window x w c)

abbrev pub at_window :
    Server
    → ℕ
    → (ℕ → X11Client → Outcome (Option Text × X11Client))
    → Option Text × X11Client
    → Outcome (Option Text × X11Client)
at_window x w go_on (class, c) = unless_named x w go_on c (own_class class)

-- The loop of `current_application`, with fuel for the windows.
unfoldable pub climb : Server → ℕ → ℕ → X11Client → Outcome (Option Text × X11Client)
unfolding get_wm_class current_application_fallback
climb x zero w c = out_of_fuel
climb x (suc fuel) w c = do found ← get_wm_class x w c; at_window x w (climb x fuel) found

abbrev pub from_focus : Server → ℕ → Option ℕ × X11Client → Outcome (Option Text × X11Client)
from_focus x fuel (none, c) = ok (none, c)
from_focus x fuel (some w, c) = climb x fuel w c

unfoldable pub current_application : Server → ℕ → X11Client → Outcome (Option Text × X11Client)
unfolding connect climb
current_application x fuel c =
    from_focus x fuel (get_cookie_reply_with_reconnect x x.input_focus (connect x c))

abbrev pub read_name : Server → Option PropertyReply × X11Client → Option Text × X11Client
read_name x (none, c) = (none, c)
read_name x (some r, c) = (x.from_utf8 r.value, c)

-- _NET_WM_NAME, or WM_NAME if there is none of it.
abbrev pub title_reply : Server → ℕ → Option PropertyReply × X11Client → Option Text × X11Client
title_reply x w (none, c) = (none, c)
title_reply x w (some r, c) =
    if r.typed
    then (x.from_utf8 r.value, c)
    else read_name x (direct (λ n. x.property n wm_name w) c)

abbrev pub title_of_window : Server → Option ℕ × X11Client → Option Text × X11Client
title_of_window x (none, c) = (none, c)
title_of_window x (some w, c) =
    if x.atoms c.asked
    then title_reply x w (direct (λ n. x.property n net_wm_name w) (count c))
    else (none, count c)

abbrev pub title_on :
    Server → Option Connection → Option ℕ → X11Client → Outcome (Option Text × X11Client)
title_on x (some conn) (some screen) c = do
  found ← get_focused_window_id x conn screen c
  ok (title_of_window x found)
title_on x _ _ c = ok (none, c)

unfoldable pub get_focused_title : Server → X11Client → Outcome (Option Text × X11Client)
unfolding get_focused_window_id
get_focused_title x c = title_on x c.connection c.screen_num c

-- After an error the connection is dropped.
abbrev pub keep_connection : Option Text × X11Client → Option Text × X11Client
keep_connection (some title, c) = (some title, c)
keep_connection (none, c) = (none, record c { connection = none })

unfoldable pub current_window : Server → X11Client → Outcome (Option Text × X11Client)
unfolding connect get_focused_title
current_window x c = do found ← get_focused_title x (connect x c); ok (keep_connection found)
