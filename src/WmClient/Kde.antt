-- ===== src/WmClient/Kde.antt =====
-- client/kde_client.rs: the window that the listener's thread keeps from the signals of KWin, and
-- the queries, which come between any two signals. No holder of the lock panics.
use ahk_wayland.Prelude.{
  ◌≡◌, refl, ap, Bool, ◌&&◌, ◌||◌, Option, none, some, List, [], ◌∷◌, ◌++◌, ◌∙◌, Text, text,
  text_eq, is_empty, if◌then◌else◌,
}
use ahk_wayland.WmClient.Answers.{Query, application, window}

pub record ActiveWindow : Type 0 where
  pub res_class : Text
  pub title : Text

-- A message: its interface and member, and its first two arguments, if they are strings.
pub record Message : Type 0 where
  pub interface_name : Option Text
  pub member_name : Option Text
  pub arguments : Option (Text × Text)

abbrev pub is_ours : Text → Text → Bool
is_ours interface_name member =
    text_eq interface_name (text "org.ahkwayland.ActiveWindow")
    && (text_eq member (text "Changed") || text_eq member (text "Initial"))

abbrev pub announced : Message → Option (Text × Text)
announced m = elim m.interface_name [
  | none ↦ none
  | some i ↦ elim m.member_name [
    | none ↦ none
    | some member ↦ if is_ours i member then m.arguments else none
  ]
]

abbrev pub updated : ActiveWindow → Option (Text × Text) → ActiveWindow
updated w none = w
updated w (some (class, title)) = record { res_class = class; title = title }

-- The callback of the match rule.
unfoldable pub on_message : Message → ActiveWindow → ActiveWindow
on_message m w = updated w (announced m)

abbrev pub unless_empty : Text → Option Text
unless_empty s = if is_empty s then none else some s

-- `current_window` and `current_application`
unfoldable pub kde_answer : Query → ActiveWindow → Option Text
kde_answer window w = unless_empty w.title
kde_answer application w = unless_empty w.res_class

-- The two threads, in the order in which they take the lock.
pub data Turn : Type 0 where
  arrives : Message → Turn
  asks : Query → Turn

unfoldable pub take_turns : List Turn → ActiveWindow → List (Option Text)
unfolding on_message kde_answer
take_turns [] w = []
take_turns (arrives m ∷ ts) w = take_turns ts (on_message m w)
take_turns (asks q ∷ ts) w = kde_answer q w ∷ take_turns ts w

-- `KdeClient::new`
abbrev pub no_window : ActiveWindow
no_window = record { res_class = []; title = [] }

-- No message of these turns announces a window.
abbrev pub IsQuiet : List Turn → Type 0
IsQuiet [] = Unit
IsQuiet (arrives m ∷ ts) = (announced m ≡ none) × IsQuiet ts
IsQuiet (asks q ∷ ts) = IsQuiet ts

-- The answers of turns in which this window stays the active one.
abbrev pub answers_of : Text → Text → List Turn → List (Option Text)
answers_of class title [] = []
answers_of class title (arrives m ∷ ts) = answers_of class title ts
answers_of class title (asks window ∷ ts) = unless_empty title ∷ answers_of class title ts
answers_of class title (asks application ∷ ts) = unless_empty class ∷ answers_of class title ts

on_message-announced :
    (m : Message) (class title : Text) (w : ActiveWindow)
    → announced m ≡ some (class, title)
    → on_message m w ≡ record { res_class = class; title = title }
unfolding on_message
on_message-announced m class title w e = ap (updated w) e

on_message-quiet : (m : Message) (w : ActiveWindow) → announced m ≡ none → on_message m w ≡ w
unfolding on_message
on_message-quiet m w e = ap (updated w) e

take_turns-quiet :
    (ts : List Turn) (class title : Text)
    → IsQuiet ts
    → take_turns ts (record { res_class = class; title = title }) ≡ answers_of class title ts
unfolding take_turns kde_answer
take_turns-quiet [] class title h = refl
take_turns-quiet (arrives m ∷ ts) class title h =
    ap (take_turns ts) (on_message-quiet m (record { res_class = class; title = title }) h.0)
    ∙ take_turns-quiet ts class title h.1
take_turns-quiet (asks window ∷ ts) class title h =
    ap (λ (l : List (Option Text)). unless_empty title ∷ l) (take_turns-quiet ts class title h)
take_turns-quiet (asks application ∷ ts) class title h =
    ap (λ (l : List (Option Text)). unless_empty class ∷ l) (take_turns-quiet ts class title h)

-- Whatever came before, from a message that announces a window up to the next one that does, each
-- query of the window is answered by its title and each query of the application by its class, an
-- empty text being none; messages of other kinds and between the queries change nothing.
take_turns-announced :
    (before : List Turn) (m : Message) (class title : Text) (after : List Turn) (w : ActiveWindow)
    → announced m ≡ some (class, title)
    → IsQuiet after
    → take_turns (before ++ arrives m ∷ after) w
      ≡ take_turns before w ++ answers_of class title after
unfolding take_turns
take_turns-announced [] m class title after w e h =
    ap (take_turns after) (on_message-announced m class title w e)
    ∙ take_turns-quiet after class title h
take_turns-announced (arrives m' ∷ before) m class title after w e h =
    take_turns-announced before m class title after (on_message m' w) e h
take_turns-announced (asks q ∷ before) m class title after w e h =
    ap (λ (l : List (Option Text)). kde_answer q w ∷ l)
      (take_turns-announced before m class title after w e h)
