-- ===== src/Handler/Passthrough.antt =====
-- event_handler.rs: with an empty configuration the handler passes key events on.
use ahk_wayland.Prelude.{
  ◌≡◌, refl, sym, ap, ◌∙◌, Bool, true, false, not, ◌&&◌, none, List, [], ◌∷◌, ◌++◌, map,
  append_assoc, append-nil, Bool-cases, inl, inr,
}
use ahk_wayland.Key.{Key, is_modifier_key, key_match_any}
use ahk_wayland.Event.{KeyValue, KeyEvent, Action, key_action, RelativeEvent}
use ahk_wayland.Config.Types.{Config}
use ahk_wayland.InputDevice.{InputDeviceInfo}
use ahk_wayland.Handler.State.{◌>>=◌, EventHandler, Env, ok, send_key}
use ahk_wayland.Handler.MultiPurpose.{maintain_one}
use ahk_wayland.Handler.Matching.{find_modmap}
use ahk_wayland.Handler.Lookup.{find_keymap}
use ahk_wayland.Handler.OnEvent.{
  mapped, maintain_and_flush, Event, is_pressed, key_down, handle_key, handle_keys, on_key_event,
  on_event, run_events, on_events, is_original,
}
use ahk_wayland.Handler.Idle.{
  IsEmptyConfig, IsIdle, tracked, type_key-none, maintain_one-IsIdle, maintain_one-actions,
  maintain_and_flush_idle, tracked-IsIdle, tracked-actions,
}

module _ (env : Env) (config : Config) (d : InputDeviceInfo) (empty : IsEmptyConfig config) where
  find_keymap_idle :
      (k : Key) (s : EventHandler)
      → s.override_remaps ≡ []
      → find_keymap env config d k s ≡ ok (none, s)
  unfolding find_keymap
  find_keymap_idle k s h = rw (h, empty.no_keymap)

  key_down_idle :
      (k : Key) (v : KeyValue) (s : EventHandler)
      → s.override_remaps ≡ []
      → key_down env config d k v s ≡ ok (send_key k v (record s { escape_next_key = false }), true)
  unfolding key_down find_keymap
  key_down_idle k v s h = rw (
    empty.no_hotstrings,
    type_key-none k (record s { escape_next_key = false }),
    find_keymap_idle k (record s { escape_next_key = false }) h,
    find_keymap_idle key_match_any (record s { escape_next_key = false }) h,
  )

  handle_key_idle :
      (k : Key) (v : KeyValue) (s : EventHandler)
      → s.override_remaps ≡ []
      → handle_key env config d k v s ≡ ok (send_key k v (tracked k v s), not (is_modifier_key k))
  unfolding handle_key
  handle_key_idle k v s h = elim (Bool-cases (is_modifier_key k)) [
    | inl m ↦ rw (empty.no_virtual, m)
    | inr m ↦ elim (Bool-cases (is_pressed v)) [
      | inl p ↦ rw (m, p, key_down_idle k v s h, empty.no_virtual)
      | inr p ↦ rw (empty.no_virtual, m, p)
    ]
  ]

  handle_keys_idle :
      (e : KeyEvent) (s : EventHandler)
      → s.override_remaps ≡ []
      → handle_keys env config d e ((e.key, e.value) ∷ []) s false
        ≡ ok (
          send_key e.key e.value (tracked e.key e.value s),
          not (is_modifier_key e.key) && is_original e e.key e.value,
        )
  unfolding handle_keys
  handle_keys_idle e s h = rw (handle_key_idle e.key e.value s h)

  find_modmap_idle : (k : Key) (s : EventHandler) → find_modmap env d k config.modmap s ≡ (none, s)
  unfolding find_modmap
  find_modmap_idle k s = rw empty.no_modmap

  -- What the handler does with an event that it forwards, and with the rest of its state.
  key_event-IsIdle :
      (e : KeyEvent) (s : EventHandler)
      → IsIdle s
      → (s' : EventHandler) × (seen : Bool) × (on_key_event env config d e s ≡ ok (s', seen))
        × IsIdle s'
        × (s'.actions ≡ s.actions ++ key_action e.key e.value ∷ [])
  unfolding on_key_event
  key_event-IsIdle e s h =
      let s0 = record s { application_cache = none; title_cache = none } in
      let idle : IsIdle s0 = record {
        no_override = h.no_override;
        no_multi = h.no_multi;
        as_itself = h.as_itself;
      } in
      let s1 = (maintain_one e.key e.value e.key s0).1 in
      let idle1 : IsIdle s1 = maintain_one-IsIdle e.key e.value s0 idle in
      let t = tracked e.key e.value s1 in
      let idle2 : IsIdle t = tracked-IsIdle e.key e.value s1 idle1 in
      let run : on_key_event env config d e s
          ≡ ok (
            send_key e.key e.value t,
            not (is_modifier_key e.key) && is_original e e.key e.value,
          ) =
        ap
          (λ found. mapped env e found >>= λ first.
            let kept = maintain_and_flush e first in handle_keys env config d e kept.0 kept.1 false)
          (find_modmap_idle e.key s0)
        ∙ ap (λ kept. handle_keys env config d e kept.0 kept.1 false)
            (maintain_and_flush_idle e s0 idle)
        ∙ handle_keys_idle e s1 idle1.no_override in
      (
        send_key e.key e.value t,
        not (is_modifier_key e.key) && is_original e e.key e.value,
        run,
        record {
          no_override = idle2.no_override;
          no_multi = idle2.no_multi;
          as_itself = idle2.as_itself;
        },
        rw (tracked-actions e.key e.value s1, maintain_one-actions e.key e.value e.key s0),
      )

-- A key event from a device, in the surroundings that it comes in.
pub record Arrival : Type 0 where
  pub env : Env
  pub device : InputDeviceInfo
  pub event : KeyEvent

abbrev pub arrivals : List Arrival → List (Env × Event)
arrivals es = map (λ a. (a.env, Event.key_event a.device a.event)) es

abbrev pub forwarded : List Arrival → List Action
forwarded es = map (λ a. key_action a.event.key a.event.value) es

run_events-IsIdle :
    (config : Config) (empty : IsEmptyConfig config) (es : List Arrival)
    (mouse : List RelativeEvent) (s : EventHandler)
    → IsIdle s
    → (s' : EventHandler) × (run_events config (arrivals es) mouse s ≡ ok (s', mouse))
      × IsIdle s'
      × (s'.actions ≡ s.actions ++ forwarded es)
unfolding run_events on_event
run_events-IsIdle config empty [] mouse s h = (s, refl, h, sym (append-nil s.actions))
run_events-IsIdle config empty (a ∷ es) mouse s h =
    let (s1, seen, run, idle, sent) = key_event-IsIdle a.env config a.device empty a.event s h in
    let (s2, run2, idle2, sent2) = run_events-IsIdle config empty es mouse s1 idle in
    (
      s2,
      rw run run2,
      idle2,
      sent2 ∙ ap (λ xs. xs ++ forwarded es) sent ∙ append_assoc s.actions _ (forwarded es),
    )

-- With an empty configuration, and from an idle state with no actions, the key events of one round
-- of the event loop, whatever devices they come from, go out as they came in, in their order, with
-- nothing in between; no event is lost to an error, a panic or missing fuel; and the state after it
-- is idle again, with no actions, so that this holds of every round after it.
pub on_events-forwards :
    (config : Config) (es : List Arrival) (s : EventHandler)
    → IsEmptyConfig config
    → IsIdle s
    → s.actions ≡ []
    → (s' : EventHandler) × (on_events config (arrivals es) s ≡ ok (forwarded es, s'))
      × IsIdle s'
      × (s'.actions ≡ [])
unfolding on_events
on_events-forwards config es s empty h none_yet =
    let (s1, run, idle, sent) = run_events-IsIdle config empty es [] s h in
    (
      record s1 { actions = [] },
      rw (run, sent, none_yet),
      record {
        no_override = idle.no_override;
        no_multi = idle.no_multi;
        as_itself = idle.as_itself;
      },
      refl,
    )
