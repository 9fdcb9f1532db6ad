-- ===== src/Handler/Lifetime.antt =====
-- event_handler.rs: the events of a multi-purpose key from its press to its release, with those of
-- other keys in between, up to the keys and values that on_key_event goes through.
pub mod Turns
pub mod Leaves
use ahk_wayland.Prelude.{◌≢◌, List, [], ◌∷◌, ◌++◌, map_get}
use ahk_wayland.Key.{Key}
use ahk_wayland.Event.{press, release, repeat, KeyEvent}
use ahk_wayland.Config.Types.{MultiPurposeKey}
use ahk_wayland.Handler.State.{EventHandler, Env}
use ahk_wayland.Handler.MultiPurpose.{KeyValues, presses}
use ahk_wayland.Handler.Dispatch.{Mapped, dispatch_multi_purpose}
use ahk_wayland.Handler.OnEvent.{maintain_and_flush}

-- The key repeats, or an event of another key, of which the modmaps make these keys and values.
pub data Turn : Type 0 where
  again : Env → Turn
  other : KeyEvent → KeyValues → Turn

-- An event of the key itself, for which the modmaps give its action.
unfoldable pub own_event : Env → MultiPurposeKey → KeyEvent → EventHandler → Mapped
own_event env m e s =
    maintain_and_flush e
      (dispatch_multi_purpose env m e.key e.value (map_get e.key s.multi_purpose_keys) s)

unfoldable pub take_turn : MultiPurposeKey → Key → Turn → EventHandler → Mapped
unfolding own_event
take_turn m k (again env) s = own_event env m (record { key = k; value = repeat }) s
take_turn m k (other e made) s = maintain_and_flush e (made, s)

-- All keys and values from the first turn to the release of the key.
unfoldable pub to_release : Env → MultiPurposeKey → Key → List Turn → EventHandler → KeyValues
unfolding take_turn own_event
to_release env m k [] s = (own_event env m (record { key = k; value = release }) s).0
to_release env m k (t ∷ ts) s = let (kvs, s') = take_turn m k t s in kvs ++ to_release env m k ts s'

-- All from its press on.
unfoldable pub lifetime : Env → Env → MultiPurposeKey → Key → List Turn → EventHandler → KeyValues
unfolding to_release own_event
lifetime pressed_at env m k ts s =
    let (kvs, s') = own_event pressed_at m (record { key = k; value = press }) s in
    kvs ++ to_release env m k ts s'

-- What the other events press.
unfoldable pub others_press : List Turn → List Key
others_press [] = []
others_press (again env ∷ ts) = others_press ts
others_press (other e made ∷ ts) = presses made ++ others_press ts

-- The events in between are of other keys.
abbrev pub IsOfOther : Key → Turn → Type 0
IsOfOther k (again env) = Unit
IsOfOther k (other e made) = e.key ≢ k
