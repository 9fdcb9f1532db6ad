-- ===== src/Tests/Writing.antt =====
-- action_dispatcher.rs, main.rs and client/mod.rs on concrete actions and events.
use ahk_wayland.Prelude.{ℕ, ◌≡◌, refl, Bool, true, false, none, some, List, [], ◌∷◌, text}
use ahk_wayland.Key.{key_b}
use ahk_wayland.Event.{Action, press, release, key_action, text_expansion}
use ahk_wayland.Keyboard.{Held}
use ahk_wayland.Dispatcher.{ActionDispatcher, done, dispatch_all}
use ahk_wayland.Dispatcher.Shown.{shown, all_spelled, dispatch_all-shown}
use ahk_wayland.WmClient.{Client, new_client}
use ahk_wayland.WmClient.Answers.{application, window, ask_all, ask_all-answers}

abbrev pub always : ℕ → Bool
always n = true

abbrev pub dispatcher : ActionDispatcher
dispatcher = record { sigaction_set = false; requests = []; tried = 0 }

abbrev some_actions : List Action
some_actions =
    key_action key_b press
    ∷ text_expansion 3 (text "by the way") true
    ∷ key_action key_b release
    ∷ []

dispatch_all-shown_example :
    (d' : ActionDispatcher) × (dispatch_all always some_actions dispatcher ≡ done d')
    × ((held : Held) → shown d'.requests held ≡ all_spelled some_actions (shown [] held))
dispatch_all-shown_example = dispatch_all-shown always some_actions dispatcher (λ n. refl)

abbrev client : Client
client = record {
  supported = λ n. true;
  current_application = λ n. some (text "editor");
  current_window = λ n. none;
}

ask_all-answers_example :
    ((ask_all client (application ∷ window ∷ []) new_client).0 ≡ some (text "editor") ∷ none ∷ [])
    × ((ask_all client (application ∷ window ∷ []) new_client).1.asked ≡ 1)
    × ((ask_all client (application ∷ window ∷ []) new_client).1.queries ≡ 2)
ask_all-answers_example = ask_all-answers client application (window ∷ [])
