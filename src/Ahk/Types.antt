-- ===== src/Ahk/Types.antt =====
-- ahk/types.rs: what the parser of an AutoHotkey file produces.
-- A vector of actions inside an action is a list type of its own.
use ahk_wayland.Prelude.{ℕ, Bool, Option, List, Text}
use ahk_wayland.Key.{Key}

pub data WindowCriteria : Type 0 where
  title : Text → WindowCriteria
  class : Text → WindowCriteria
  exe : Text → WindowCriteria

mutual
  pub data AhkAction : Type 0 where
    run : List Text → AhkAction
    send : Text → AhkAction
    remap : List Key → AhkAction
    sleep : ℕ → AhkAction
    shell : Text → AhkAction
    block : AhkActions → AhkAction
    win_activate : WindowCriteria → AhkAction
    win_close : WindowCriteria → AhkAction
    if_win_active : WindowCriteria → AhkActions → ElseActions → AhkAction
    win_wait_active : WindowCriteria → Option ℕ → AhkAction

  pub data AhkActions : Type 0 where
    nil : AhkActions
    cons : AhkAction → AhkActions → AhkActions

  pub data ElseActions : Type 0 where
    no_else : ElseActions
    else_actions : AhkActions → ElseActions

pub record AhkHotkey : Type 0 where
  pub modifiers : List Key
  pub key : Key
  pub action : AhkAction
  pub context : Option Text
  pub is_wildcard : Bool

pub record AhkHotstring : Type 0 where
  pub trigger : Text
  pub replacement : Text
  pub immediate : Bool
  pub case_sensitive : Bool
  pub omit_char : Bool
  pub execute : Bool
  pub context : Option Text

pub record AhkConfig : Type 0 where
  pub hotkeys : List AhkHotkey
  pub hotstrings : List AhkHotstring
