-- ===== src/Handler/State.antt =====
-- event_handler.rs: the state of the event handler, and the actions it gathers.
use ahk_wayland.Prelude.{ℕ, Bool, Option, List, [], ◌∷◌, ◌++◌, Text}
use ahk_wayland.Key.{Key}
use ahk_wayland.Event.{KeyValue, Action, key_action}
use ahk_wayland.Hotstring.{Paths}
use ahk_wayland.Config.Types.{Keys, OverrideEntry}
use ahk_wayland.World.{World}

pub record MultiPurposeKeyState : Type 0 where
  pub held : Keys
  pub alone : Keys
  pub alone_timeout_at : Option ℕ
  pub held_down : Bool

-- The timer of the nested remaps is the time it was set to, if it is set. `queries` counts the
-- questions to the window manager so far; the program does not keep it.
pub record EventHandler : Type 0 where
  pub modifiers : List Key
  pub extra_modifiers : List Key
  pub pressed_keys : List (Key × Key)
  pub application_cache : Option Text
  pub title_cache : Option Text
  pub queries : ℕ
  pub multi_purpose_keys : List (Key × MultiPurposeKeyState)
  pub override_remaps : List (List (Key × List OverrideEntry))
  pub override_timeout_key : Option (List Key)
  pub override_timer : Option ℕ
  pub mode : Text
  pub mark_set : Bool
  pub escape_next_key : Bool
  pub keypress_delay : ℕ
  pub actions : List Action
  pub hotstring_state : Option Paths
  pub hotstring_buffer : Text

-- What surrounds the handler while it works on one event: the other code, the clock (one value
-- an event: no event reads it twice), whether the timer's two system calls succeed, and the fuel
-- of the interpreter's waits.
pub record Env : Type 0 where
  pub world : World
  pub now : ℕ
  pub timer_unset_ok : Bool
  pub timer_set_ok : Bool
  pub fuel : ℕ

-- `Result`, a panic, and fuel that ran out. An error ends the program, unless it is one of a timeout.
pub data Outcome {ℓ} (A : Type ℓ) : Type ℓ where
  ok : A → Outcome A
  err : Outcome A
  panic : Outcome A
  out_of_fuel : Outcome A

infixl 5 ◌>>=◌
abbrev pub ◌>>=◌ {ℓ κ} : {A : Type ℓ} {B : Type κ} → Outcome A → (A → Outcome B) → Outcome B
ok a >>= f = f a
err >>= f = err
panic >>= f = panic
out_of_fuel >>= f = out_of_fuel

abbrev pub send_action : Action → EventHandler → EventHandler
send_action a s = record s { actions = s.actions ++ a ∷ [] }

abbrev pub send_key : Key → KeyValue → EventHandler → EventHandler
send_key k v s = send_action (key_action k v) s

unfoldable pub send_keys : List Key → KeyValue → EventHandler → EventHandler
send_keys [] v s = s
send_keys (k ∷ ks) v s = send_keys ks v (send_key k v s)
