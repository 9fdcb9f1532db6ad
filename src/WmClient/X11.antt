-- ===== src/WmClient/X11.antt =====
-- client/x11_client.rs: the requests to the X server, made again once after a new connection; the child modules read
-- WM_CLASS and find the application. The variable DISPLAY is Unicode if it is set.
pub mod WmClass
pub mod Application
pub mod Nearest
use ahk_wayland.Prelude.{
  ℕ, zero, suc, ◌+◌, ◌-◌, ◌*◌, Bool, true, false, ◌&&◌, ◌||◌, Option, none, some, List, [], ◌∷◌,
  ◌++◌, Text, text, text_eq, length, is_empty, get_elem?, ◌==◌, if◌then◌else◌, not,
}
use ahk_wayland.Handler.State.{Outcome, ok, err, panic, out_of_fuel, ◌>>=◌}

-- A property that is asked for, and the reply: whether its type is not NONE, and the bytes.
pub data Property : Type 0 where
  wm_class active_window net_wm_name wm_name : Property

pub record PropertyReply : Type 0 where
  pub typed : Bool
  pub value : List ℕ

-- A connection: the roots of its screens, `setup().roots`.
pub record Connection : Type 0 where
  pub roots : List ℕ

-- What x11rb answers: to the n-th attempt to connect, with the screen's number, and to the n-th
-- request; and `String::from_utf8`. With overflow checks a subtraction below zero panics.
pub record Server : Type 0 where
  pub connect : ℕ → Option (Connection × ℕ)
  pub input_focus : ℕ → Option ℕ
  pub parent : ℕ → ℕ → Option ℕ
  pub property : ℕ → Property → ℕ → Option PropertyReply
  pub atoms : ℕ → Bool
  pub from_utf8 : List ℕ → Option Text
  pub overflow_checks : Bool

-- The client, and how often it tried to connect and asked.
pub record X11Client : Type 0 where
  pub connection : Option Connection
  pub screen_num : Option ℕ
  pub connects : ℕ
  pub asked : ℕ

-- `X11Client::new`
abbrev pub new_x11 : X11Client
new_x11 = record { connection = none; screen_num = none; connects = 0; asked = 0 }

abbrev pub connected : Option (Connection × ℕ) → X11Client → X11Client
connected none c = record c { connects = c.connects + 1 }
connected (some (conn, screen)) c = record c {
  connection = some conn;
  screen_num = some screen;
  connects = c.connects + 1;
}

-- A failure keeps the connection that there is.
unfoldable pub reconnect : Server → X11Client → X11Client
reconnect x c = connected (x.connect c.connects) c

unfoldable pub connect : Server → X11Client → X11Client
unfolding reconnect
connect x c = elim c.connection [ none ↦ reconnect x c | some conn ↦ c ]

unfoldable pub x11_supported : Server → X11Client → Bool × X11Client
unfolding connect
x11_supported x c =
    let c' = connect x c in (elim c'.connection [ none ↦ false | some conn ↦ true ], c')

-- Whether a query of either kind succeeds is part of its reply.
unfoldable pub get_cookie_reply : {A : Type 0} → (ℕ → Option A) → X11Client → Option A × X11Client
get_cookie_reply ask c = elim c.connection [
  | none ↦ (none, c)
  | some conn ↦ (ask c.asked, record c { asked = c.asked + 1 })
]

unfoldable pub retried :
    {A : Type 0} → Server → (ℕ → Option A) → Option A × X11Client → Option A × X11Client
unfolding reconnect get_cookie_reply
retried x ask (some a, c) = (some a, c)
retried x ask (none, c) = get_cookie_reply ask (reconnect x c)

unfoldable pub get_cookie_reply_with_reconnect :
    {A : Type 0} → Server → (ℕ → Option A) → X11Client → Option A × X11Client
unfolding get_cookie_reply retried
get_cookie_reply_with_reconnect x ask c = retried x ask (get_cookie_reply ask c)
