-- ===== src/Handler/Dispatch.antt =====
-- event_handler.rs: what an action of a keymap or a modmap does.
use ahk_wayland.Prelude.{
  ℕ, Bool, true, false, Option, none, some, List, [], ◌∷◌, ◌++◌, ◌+◌, map, is_empty, map_get,
  map_insert, map_remove, set_insert, if◌then◌else◌,
}
use ahk_wayland.Key.{Key}
use ahk_wayland.Event.{KeyValue, press, release, repeat, command, delay}
use ahk_wayland.Config.Types.{
  KeymapAction, Remaps, ModmapAction, keys, multi_purpose_key, press_release_key, MultiPurposeKey,
  PressReleaseKey, into_vec,
}
use ahk_wayland.Config.Keymap.{build_override_table}
use ahk_wayland.Ahk.Interpreter.{Exec, execute}
use ahk_wayland.Handler.State.{
  EventHandler, MultiPurposeKeyState, Env, Outcome, ok, err, panic, out_of_fuel, ◌>>=◌, send_action,
  send_key,
}
use ahk_wayland.Handler.Modifiers.{TaggedAction, tag, send_key_press_and_release, with_mark}
use ahk_wayland.Handler.MultiPurpose.{KeyValues, with_value, repeat_state, release_state}

abbrev pub or_trigger : Key → Option (List Key) → Option (List Key)
or_trigger k none = some (k ∷ [])
or_trigger k (some ks) = some ks

-- The timer of the first remap in a row, if it has a timeout.
abbrev pub start_timer :
    Env → Bool → Option ℕ → Option (List Key) → Key → EventHandler → Outcome EventHandler
start_timer env true (some timeout) timeout_key k s =
    if env.timer_unset_ok
    then (if env.timer_set_ok
        then ok (record s {
          override_timer = some timeout;
          override_timeout_key = or_trigger k timeout_key;
        })
        else err)
    else err
start_timer env _ _ timeout_key k s = ok s

unfoldable pub dispatch_remap :
    Env → Remaps → Option ℕ → Option (List Key) → Bool → Key → EventHandler → Outcome EventHandler
dispatch_remap env remap timeout timeout_key exact_match k s =
    start_timer env (is_empty s.override_remaps) timeout timeout_key k (record s {
      override_remaps = s.override_remaps ++ build_override_table remap exact_match ∷ [];
    })

unfoldable pub insert_all : List Key → List Key → List Key
insert_all [] set = set
insert_all (k ∷ ks) set = insert_all ks (set_insert k set)

-- The interpreter is told the handler's modifiers.
abbrev pub after_exec : Exec → EventHandler → Outcome EventHandler
after_exec (Exec.done xs n) s = ok (record s { actions = s.actions ++ xs; queries = n })
after_exec Exec.panic s = panic
after_exec Exec.out_of_fuel s = out_of_fuel

unfoldable pub dispatch_keymap_action :
    Env → KeymapAction → Bool → Key → EventHandler → Outcome EventHandler
unfolding dispatch_remap insert_all
dispatch_keymap_action env (KeymapAction.key_press_and_release p) e k s =
    ok (send_key_press_and_release p s)
dispatch_keymap_action env (KeymapAction.key_press j) e k s = ok (send_key j press s)
dispatch_keymap_action env (KeymapAction.key_repeat j) e k s = ok (send_key j repeat s)
dispatch_keymap_action env (KeymapAction.key_release j) e k s = ok (send_key j release s)
dispatch_keymap_action env (KeymapAction.remap r t tk) e k s = dispatch_remap env r t tk e k s
dispatch_keymap_action env (KeymapAction.launch cmd) e k s = ok (send_action (command cmd) s)
dispatch_keymap_action env (KeymapAction.set_mode m) e k s = ok (record s { mode = m })
dispatch_keymap_action env (KeymapAction.set_mark b) e k s = ok (record s { mark_set = b })
dispatch_keymap_action env (KeymapAction.with_mark p) e k s =
    ok (send_key_press_and_release (with_mark p s) s)
dispatch_keymap_action env (KeymapAction.escape_next_key b) e k s =
    ok (record s { escape_next_key = b })
dispatch_keymap_action env (KeymapAction.sleep ms) e k s = ok (send_action (delay ms) s)
dispatch_keymap_action env (KeymapAction.set_extra_modifiers ks) e k s =
    ok (record s { extra_modifiers = insert_all ks [] })
dispatch_keymap_action env (KeymapAction.ahk_interpreted a) e k s =
    after_exec (execute env.world s.modifiers env.fuel a s.queries) s

unfoldable pub dispatch_action : Env → TaggedAction → Key → EventHandler → Outcome EventHandler
unfolding dispatch_keymap_action
dispatch_action env a k s = dispatch_keymap_action env a.action a.exact_match k s

unfoldable pub dispatch_actions :
    Env → List TaggedAction → Key → EventHandler → Outcome EventHandler
unfolding dispatch_action
dispatch_actions env [] k s = ok s
dispatch_actions env (a ∷ xs) k s = do s' ← dispatch_action env a k s; dispatch_actions env xs k s'

abbrev pub Mapped : Type 0
Mapped = KeyValues × EventHandler

abbrev pub new_state : Env → MultiPurposeKey → MultiPurposeKeyState
new_state env m = record {
  held = m.held;
  alone = m.alone;
  alone_timeout_at = if m.free_hold then none else some (env.now + m.alone_timeout);
  held_down = false;
}

-- The arms of a multi-purpose key, with the state that is kept for it.
unfoldable pub dispatch_multi_purpose :
    Env → MultiPurposeKey → Key → KeyValue → Option MultiPurposeKeyState → EventHandler → Mapped
dispatch_multi_purpose env m k press kept s =
    ([], record s { multi_purpose_keys = map_insert k (new_state env m) s.multi_purpose_keys })
dispatch_multi_purpose env m k repeat (some st) s =
    let (kvs, st') = repeat_state env.now st in
    (kvs, record s { multi_purpose_keys = map_insert k st' s.multi_purpose_keys })
dispatch_multi_purpose env m k release (some st) s =
    (release_state env.now st, record s { multi_purpose_keys = map_remove k s.multi_purpose_keys })
dispatch_multi_purpose env m k repeat none s = ((k, repeat) ∷ [], s)
dispatch_multi_purpose env m k release none s = ((k, release) ∷ [], s)

abbrev pub actions_for : PressReleaseKey → KeyValue → List KeymapAction
actions_for p press = p.press
actions_for p release = p.release
actions_for p repeat = p.repeat

unfoldable pub dispatch_keys : Env → ModmapAction → Key → KeyValue → EventHandler → Outcome Mapped
unfolding dispatch_multi_purpose dispatch_actions
dispatch_keys env (keys ks) k v s = ok (with_value v (into_vec ks), s)
dispatch_keys env (multi_purpose_key m) k v s =
    ok (dispatch_multi_purpose env m k v (map_get k s.multi_purpose_keys) s)
dispatch_keys env (press_release_key p) k v s = do
  s' ← dispatch_actions env (map (tag false) (actions_for p v)) k s
  ok ((if p.skip_key_event then [] else (k, v) ∷ []), s')
