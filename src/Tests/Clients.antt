-- ===== src/Tests/Clients.antt =====
-- The clients of the window managers on a few windows.
use ahk_wayland.Prelude.{
  ℕ, ◌≡◌, refl, true, false, Option, none, some, List, [], ◌∷◌, ◌++◌, Text, text, ◌==◌,
  if◌then◌else◌, arith, All,
}
use ahk_wayland.WmClient.Wlroots.{
  Trip, toplevel, app_id, state, closed, new_wlroots, connect, application, window,
}
use ahk_wayland.WmClient.Wlroots.History.{after}
use ahk_wayland.WmClient.Wlroots.Queries.{Asked, query_all, expected_names, query_all-history}
use ahk_wayland.WmClient.X11.{Server, X11Client}
use ahk_wayland.WmClient.X11.WmClass.{class_of, ended, read_strings, class_of-strings}
use ahk_wayland.WmClient.X11.Application.{current_application}
use ahk_wayland.WmClient.X11.Nearest.{
  steady, IsPath, root, below, HasClass, Walks, current_application-nearest,
}

abbrev first : Trip
first = record {
  events = toplevel 1 ∷ app_id 1 (text "editor") ∷ state 1 (2 ∷ 0 ∷ 0 ∷ 0 ∷ []) ∷ [];
  succeeds = true;
}

-- The connection is lost, and the window closed before the next one.
abbrev questions : List Asked
questions =
    record {
      wanted = application;
      trip = record { events = []; succeeds = true };
      again = record { events = []; succeeds = false };
    }
    ∷ record {
      wanted = window;
      trip = record { events = []; succeeds = false };
      again = record { events = closed 1 ∷ []; succeeds = true };
    }
    ∷ []

query_all-history_example :
    query_all 2 questions (connect 2 first new_wlroots).1
    ≡ expected_names 2 (after [] first.events) questions
query_all-history_example = query_all-history 2 first questions

-- Window 5 has no class, and its parent 3 is the child of the root, 1.
abbrev server : Server
server = record {
  connect = λ n. none;
  input_focus = λ n. some 5;
  parent = λ n w. if w == 5 then some 3 else if w == 3 then some 1 else some 0;
  property = λ n p w. some (record {
    typed = true;
    value = if w == 3 then text "vi" ++ 0 ∷ text "Vim" ++ 0 ∷ [] else [];
  });
  atoms = λ n. true;
  from_utf8 = λ bytes. some bytes;
  overflow_checks = true;
}

class_of-strings_example :
    class_of server (text "vi" ++ 0 ∷ ended (text "Vim") (some []))
    ≡ read_strings server (text "Vim") (some []) (some (text "vi"))
class_of-strings_example = class_of-strings server (text "vi") (text "Vim") (some []) refl refl

abbrev client : X11Client
client = record {
  connection = some (record { roots = 1 ∷ [] });
  screen_num = some 0;
  connects = 1;
  asked = 0;
}

abbrev classes : ℕ → Option Text
classes w = if w == 3 then some (text "vi.Vim") else none

up_from_5 : IsPath server 5 (5 ∷ 3 ∷ 1 ∷ [])
up_from_5 = below 5 2 (3 ∷ 1 ∷ []) refl (below 3 0 (1 ∷ []) refl (root 1 refl))

classes-HasClass : All (HasClass (steady server) classes) (5 ∷ 3 ∷ 1 ∷ [])
unfolding class_of
classes-HasClass = ((_, refl, refl), ((_, refl, refl), ((_, refl, refl), tt)))

current_application-nearest_example :
    Walks
      (steady server)
      (current_application (steady server) 3 client)
      client
      (some (text "vi.Vim"))
current_application-nearest_example =
    current_application-nearest server classes 3 5 (5 ∷ 3 ∷ 1 ∷ []) client
      (record { roots = 1 ∷ [] }) refl up_from_5 classes-HasClass (omega arith) refl
