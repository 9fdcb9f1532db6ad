-- ===== src/WmClient/Answers.antt =====
-- client/mod.rs: the answers to a row of queries.
use ahk_wayland.Prelude.{
  ℕ, ◌+◌, ◌≡◌, refl, ap, ◌∙◌, Bool, true, false, Option, none, some, List, [], ◌∷◌, map, Text,
  length, arith, if◌then◌else◌,
}
use ahk_wayland.WmClient.{Client, WmClient, new_client, current_window, current_application}

pub data Query : Type 0 where
  application window : Query

abbrev pub ask : Client → Query → WmClient → Option Text × WmClient
ask client application w = current_application client w
ask client window w = current_window client w

-- The answers in their order, and the client afterwards.
unfoldable pub ask_all : Client → List Query → WmClient → List (Option Text) × WmClient
unfolding current_window current_application
ask_all client [] w = ([], w)
ask_all client (q ∷ qs) w =
    let (a, w1) = ask client q w in let (more, w2) = ask_all client qs w1 in (a ∷ more, w2)

-- What the window manager's own client answers from the n-th query on.
abbrev pub own_answer : Client → ℕ → Query → Option Text
own_answer client n application = client.current_application n
own_answer client n window = client.current_window n

abbrev pub own_answers : Client → ℕ → List Query → List (Option Text)
own_answers client n [] = []
own_answers client n (q ∷ qs) = own_answer client n q ∷ own_answers client (n + 1) qs

-- One query: its answer, and the client after it.
abbrev Answered : Client → Query → Bool → WmClient → ℕ → Type 0
Answered client q b w asked =
    ((ask client q w).0 ≡ (if b then own_answer client w.queries q else none))
    × ((ask client q w).1.supported ≡ some b)
    × ((ask client q w).1.asked ≡ asked)
    × ((ask client q w).1.queries ≡ (if b then w.queries + 1 else w.queries))

ask-Answered :
    (client : Client) (q : Query) (w : WmClient) (b : Bool)
    → w.supported ≡ some b
    → Answered client q b w w.asked
unfolding current_window current_application
ask-Answered client application w true h = (rw h refl, rw h refl, rw h refl, rw h refl)
ask-Answered client window w true h = (rw h refl, rw h refl, rw h refl, rw h refl)
ask-Answered client application w false h = (rw h refl, rw h refl, rw h refl, rw h refl)
ask-Answered client window w false h = (rw h refl, rw h refl, rw h refl, rw h refl)

ask-Answered_first :
    (client : Client) (q : Query) (b : Bool)
    → client.supported 0 ≡ b
    → Answered client q b new_client 1
unfolding current_window current_application
ask-Answered_first client application true h = (rw h refl, rw h refl, rw h refl, rw h refl)
ask-Answered_first client window true h = (rw h refl, rw h refl, rw h refl, rw h refl)
ask-Answered_first client application false h = (rw h refl, rw h refl, rw h refl, rw h refl)
ask-Answered_first client window false h = (rw h refl, rw h refl, rw h refl, rw h refl)

-- What a row of queries comes to, if the support is `b`.
abbrev pub expected : Client → Bool → ℕ → List Query → List (Option Text)
expected client b n qs = if b then own_answers client n qs else map (λ q. none) qs

abbrev AllAnswered : Client → List Query → Bool → WmClient → ℕ → Type 0
AllAnswered client qs b w asked =
    ((ask_all client qs w).0 ≡ expected client b w.queries qs)
    × ((ask_all client qs w).1.asked ≡ asked)
    × ((ask_all client qs w).1.queries ≡ (if b then w.queries + length qs else w.queries))

AllAnswered-cons :
    (client : Client) (q : Query) (qs : List Query) (b : Bool) (w : WmClient) (asked : ℕ)
    → Answered client q b w asked
    → AllAnswered client qs b (ask client q w).1 (ask client q w).1.asked
    → AllAnswered client (q ∷ qs) b w asked
unfolding ask_all
AllAnswered-cons client q qs true w asked a r = (
  ap (λ (x : Option Text). x ∷ (ask_all client qs (ask client q w).1).0) a.0
      ∙ ap (λ (l : List (Option Text)). own_answer client w.queries q ∷ l)
          (r.0 ∙ ap (λ (n : ℕ). own_answers client n qs) a.3),
  r.1 ∙ a.2,
  r.2 ∙ omega (arith, a.3),
)
AllAnswered-cons client q qs false w asked a r = (
  ap (λ (x : Option Text). x ∷ (ask_all client qs (ask client q w).1).0) a.0
      ∙ ap (λ (l : List (Option Text)). none ∷ l) r.0,
  r.1 ∙ a.2,
  r.2 ∙ a.3,
)

ask_all-AllAnswered :
    (client : Client) (qs : List Query) (w : WmClient) (b : Bool)
    → w.supported ≡ some b
    → AllAnswered client qs b w w.asked
unfolding ask_all
ask_all-AllAnswered client [] w true h = (refl, refl, omega arith)
ask_all-AllAnswered client [] w false h = (refl, refl, refl)
ask_all-AllAnswered client (q ∷ qs) w b h =
    let a = ask-Answered client q w b h in
    AllAnswered-cons client q qs b w w.asked a
      (ask_all-AllAnswered client qs (ask client q w).1 b a.1)

-- In a row of queries, one at least, the client is asked just once whether it is supported. If it is,
-- the answers are its own, one for each query, in their order; if not, each answer is none and no
-- query gets to the client.
pub ask_all-answers :
    (client : Client) (q : Query) (qs : List Query)
    → ((ask_all client (q ∷ qs) new_client).0 ≡ expected client (client.supported 0) 0 (q ∷ qs))
      × ((ask_all client (q ∷ qs) new_client).1.asked ≡ 1)
      × ((ask_all client (q ∷ qs) new_client).1.queries
          ≡ (if client.supported 0 then length (q ∷ qs) else 0))
ask_all-answers client q qs =
    let a = ask-Answered_first client q (client.supported 0) refl in
    let r =
      AllAnswered-cons client q qs (client.supported 0) new_client 1 a
        (ask_all-AllAnswered client qs (ask client q new_client).1 (client.supported 0) a.1) in
    let from_zero : 0 + length (q ∷ qs) ≡ length (q ∷ qs) = omega arith in
    (r.0, r.1, r.2 ∙ ap (λ (n : ℕ). if client.supported 0 then n else 0) from_zero)
