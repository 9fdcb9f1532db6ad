-- ===== src/WmClient/X11/Nearest.antt =====
-- client/x11_client.rs, current_application: the nearest window with a class.
use ahk_wayland.Prelude.{
  ℕ, zero, suc, ◌+◌, ◌≤◌, ◌≡◌, refl, ap, ◌∙◌, arith, Option, none, some, List, [], ◌∷◌, Text,
  length, All,
}
use ahk_wayland.Handler.State.{Outcome, ok, ◌>>=◌}
use ahk_wayland.WmClient.X11.{
  connect, Server, Connection, PropertyReply, wm_class, X11Client, get_cookie_reply_with_reconnect,
  retried,
}
use ahk_wayland.WmClient.X11.WmClass.{class_of, get_wm_class, class_of_reply, with_client}
use ahk_wayland.WmClient.X11.Application.{
  current_application, from_focus, own_class, climb, at_window, unless_named, with_parent,
  current_application_fallback,
}

-- The server with the same answer to a request at all times.
abbrev pub steady : Server → Server
steady x = record x {
  input_focus = λ n. x.input_focus 0;
  parent = λ n. x.parent 0;
  property = λ n. x.property 0;
  atoms = λ n. x.atoms 0;
}

-- A window, and those above it up to the root, which has no parent.
pub data IsPath (x : Server) : ℕ → List ℕ → Type 0 where
  root : (w : ℕ) → x.parent 0 w ≡ some 0 → IsPath x w (w ∷ [])
  below :
      (w p : ℕ) (ws : List ℕ)
      → x.parent 0 w ≡ some (suc p)
      → IsPath x (suc p) ws
      → IsPath x w (w ∷ ws)

-- The server tells the class of a window.
abbrev pub HasClass : Server → (ℕ → Option Text) → ℕ → Type 0
HasClass x class w =
    (r : PropertyReply) × (x.property 0 wm_class w ≡ some r) × (class_of x r.value ≡ ok (class w))

-- The first class of its own, along a path.
abbrev pub nearest : (ℕ → Option Text) → List ℕ → Option Text
nearest class [] = none
nearest class (w ∷ ws) = elim (own_class (class w)) [
  | some name ↦ some name
  | none ↦ nearest class ws
]

get_cookie_reply-answered :
    {A : Type 0} (x : Server) (ask : ℕ → Option A) (a : A) (c : X11Client) (conn : Connection)
    → c.connection ≡ some conn
    → ask c.asked ≡ some a
    → get_cookie_reply_with_reconnect x ask c ≡ (some a, record c { asked = c.asked + 1 })
unfolding get_cookie_reply_with_reconnect retried
get_cookie_reply-answered x ask a c conn e h = rw (e, h) refl

get_wm_class-answered :
    (x : Server) (class : ℕ → Option Text) (w : ℕ) (c : X11Client) (conn : Connection)
    → c.connection ≡ some conn
    → HasClass (steady x) class w
    → get_wm_class (steady x) w c ≡ ok (class w, record c { asked = c.asked + 1 })
unfolding get_wm_class class_of
get_wm_class-answered x class w c conn e (r, h, k) =
    ap (class_of_reply (steady x))
      (get_cookie_reply-answered (steady x) (λ n. x.property 0 wm_class w) r c conn e h)
    ∙ ap (with_client (record c { asked = c.asked + 1 })) k

-- What comes of a walk that ends with this client.
abbrev pub walked : Server → Option Text → X11Client → Outcome (Option Text × X11Client)
walked x (some name) c = ok (some name, c)
walked x none c = current_application_fallback x c

abbrev pub Walks : Server → Outcome (Option Text × X11Client) → X11Client → Option Text → Type 0
Walks x outcome c found =
    (c' : X11Client) × (outcome ≡ walked x found c')
    × (c'.connection ≡ c.connection)
    × (c'.screen_num ≡ c.screen_num)

climb-step :
    (x : Server) (fuel w : ℕ) (c : X11Client)
    → climb x (suc fuel) w c ≡ (get_wm_class x w c >>= at_window x w (climb x fuel))
unfolding climb
climb-step x fuel w c = refl

climb-here :
    (x : Server) (class : ℕ → Option Text) (fuel w : ℕ) (c : X11Client) (conn : Connection)
    → c.connection ≡ some conn
    → HasClass (steady x) class w
    → climb (steady x) (suc fuel) w c
      ≡ at_window (steady x) w (climb (steady x) fuel) (class w, record c { asked = c.asked + 1 })
climb-here x class fuel w c conn e h =
    climb-step (steady x) fuel w c
    ∙ ap (λ r. r >>= at_window (steady x) w (climb (steady x) fuel))
        (get_wm_class-answered x class w c conn e h)

abbrev or_nearest : (ℕ → Option Text) → List ℕ → Option Text → Option Text
or_nearest class ws (some name) = some name
or_nearest class ws none = nearest class ws

-- The end of the path, and a window with a parent.
unless_named-root :
    (x : Server) (go_on : ℕ → X11Client → Outcome (Option Text × X11Client)) (w : ℕ)
    → (c : X11Client) (conn : Connection) (o : Option Text) → c.connection ≡ some conn
    → x.parent 0 w ≡ some 0
    → Walks (steady x) (unless_named (steady x) w go_on c o) c (or_nearest (λ v. none) [] o)
unless_named-root x go_on w c conn (some name) e h = (c, refl, refl, refl)
unless_named-root x go_on w c conn none e h = (
  record c { asked = c.asked + 1 },
  ap (with_parent (steady x) go_on)
      (get_cookie_reply-answered (steady x) (λ n. x.parent 0 w) 0 c conn e h),
  refl,
  refl,
)

unless_named-below :
    (x : Server) (class : ℕ → Option Text) (fuel w p : ℕ) (ws : List ℕ)
    → (c : X11Client) (conn : Connection) (o : Option Text) → c.connection ≡ some conn
    → x.parent 0 w ≡ some (suc p)
    → Walks
        (steady x)
        (climb (steady x) fuel (suc p) (record c { asked = c.asked + 1 }))
        c
        (nearest class ws)
    → Walks
        (steady x)
        (unless_named (steady x) w (climb (steady x) fuel) c o)
        c
        (or_nearest class ws o)
unless_named-below x class fuel w p ws c conn (some name) e h k = (c, refl, refl, refl)
unless_named-below x class fuel w p ws c conn none e h (c', k, same, screen) = (
  c',
  ap (with_parent (steady x) (climb (steady x) fuel))
        (get_cookie_reply-answered (steady x) (λ n. x.parent 0 w) (suc p) c conn e h)
      ∙ k,
  same,
  screen,
)

climb-Walks :
    (x : Server) (class : ℕ → Option Text) (fuel w : ℕ) (ws : List ℕ) (c : X11Client)
    (conn : Connection)
    → IsPath x w ws
    → All (HasClass (steady x) class) ws
    → length ws ≤ fuel
    → c.connection ≡ some conn
    → Walks (steady x) (climb (steady x) fuel w c) c (nearest class ws)
climb-Walks x class zero _ _ c conn (root w _) hs le e = absurd (omega (arith, le))
climb-Walks x class zero _ _ c conn (below w p ws _ _) hs le e = absurd (omega (arith, le))
climb-Walks x class (suc fuel) _ _ c conn (root w h) hs le e =
    let (c', k, same, screen) =
      unless_named-root x (climb (steady x) fuel) w (record c { asked = c.asked + 1 }) conn
        (own_class (class w)) e h in
    (c', climb-here x class fuel w c conn e hs.0 ∙ k, same, screen)
climb-Walks x class (suc fuel) _ _ c conn (below w p ws h path) hs le e =
    let (c', k, same, screen) =
      unless_named-below x class fuel w p ws (record c { asked = c.asked + 1 }) conn
        (own_class (class w)) e h
        (climb-Walks x class fuel (suc p) ws (record c { asked = c.asked + 1 + 1 }) conn path hs.1
          (omega (arith, le)) e) in
    (c', climb-here x class fuel w c conn e hs.0 ∙ k, same, screen)

connect-connected :
    (x : Server) (c : X11Client) (conn : Connection) → c.connection ≡ some conn → connect x c ≡ c
unfolding connect
connect-connected x c conn e = rw e refl

-- A server that does not change and tells the focus, the parents and the classes with no error is
-- asked by a client with a connection. The answer is the first class on the way from the focused
-- window up to the root that is not the proxy's, and if there is none, what the fallback then gives
-- on the same connection. Fuel for each window on that way is enough.
pub current_application-nearest :
    (x : Server) (class : ℕ → Option Text) (fuel w : ℕ) (ws : List ℕ) (c : X11Client)
    (conn : Connection)
    → x.input_focus 0 ≡ some w
    → IsPath x w ws
    → All (HasClass (steady x) class) ws
    → length ws ≤ fuel
    → c.connection ≡ some conn
    → Walks (steady x) (current_application (steady x) fuel c) c (nearest class ws)
unfolding current_application
current_application-nearest x class fuel w ws c conn f path hs le e =
    let (c', k, same, screen) =
      climb-Walks x class fuel w ws (record c { asked = c.asked + 1 }) conn path hs le e in
    (
      c',
      ap
            (λ (k : X11Client).
              from_focus (steady x) fuel
                (get_cookie_reply_with_reconnect (steady x) (steady x).input_focus k))
            (connect-connected (steady x) c conn e)
          ∙ ap (from_focus (steady x) fuel)
              (get_cookie_reply-answered (steady x) (λ n. x.input_focus 0) w c conn e f)
          ∙ k,
      same,
      screen,
    )
