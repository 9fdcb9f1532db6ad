-- ===== src/Tests/Keys.antt =====
-- event_handler.rs on concrete keys.
use ahk_wayland.Prelude.{
  ℕ, ◌≡◌, ◌≤◌, ◌<◌, refl, true, false, not, ◌&&◌, ◌||◌, none, some, List, [], ◌∷◌, ◌++◌, ◌==◌,
  contains, get_elem?, arith, map_get,
}
use ahk_wayland.Key.{
  Key, key_a, key_b, key_c, key_x, key_esc, key_leftctrl, key_leftshift, is_modifier_key,
  disguised_event_offsetter, key_match_any,
}
use ahk_wayland.Event.{press, release, repeat, Action, key_action, RelativeEvent, pos, negsuc}
use ahk_wayland.Keyboard.{Held, replay}
use ahk_wayland.Config.Types.{KeyPress, Modifier, control, shift, one_key, MultiPurposeKey}
use ahk_wayland.Handler.State.{EventHandler, ok}
use ahk_wayland.Handler.Modifiers.{send_key_press_and_release, contains_modifier, key_of}
use ahk_wayland.Handler.Modifiers.Tap.{IsSynced, send_key_press_and_release-restores}
use ahk_wayland.Handler.Modifiers.Chord.{IsDown, send_key_press_and_release-chord}
use ahk_wayland.Handler.MultiPurpose.{maintain_pressed_keys, release_state, repeat_state}
use ahk_wayland.Handler.Dispatch.{new_state, dispatch_multi_purpose}
use ahk_wayland.Handler.Lifetime.{
  Turn, again, own_event, take_turn, to_release, lifetime, others_press,
}
use ahk_wayland.Handler.Lifetime.Leaves.{lifetime-leaves}
use ahk_wayland.Handler.PressedKeys.{Passed, maintain_all, maintain_pressed_keys-release}
use ahk_wayland.Handler.OnEvent.{on_events, disguised_key}
use ahk_wayland.Handler.Relative.{disguised_key-injective, is_backward}
use ahk_wayland.Handler.Passthrough.{Arrival, arrivals, forwarded, on_events-forwards}
use ahk_wayland.Handler.Idle.{IsIdle, IsEmptyConfig}
use ahk_wayland.Handler.MultiPurpose.{KeyValues, has_press, presses, flush_timeout_keys}
use ahk_wayland.Handler.MultiPurpose.Flush.{IsSettled, tracked_keys, flush_timeout_keys-settles}
use ahk_wayland.Prelude.{All}
use ahk_wayland.Tests.Fixtures.{env, device, no_config, fresh}

-- Shift is held, and Ctrl-C is to be sent.
abbrev shifted : EventHandler
shifted = record fresh { modifiers = key_leftshift ∷ [] }

abbrev ctrl_c : KeyPress
ctrl_c = record { key = key_c; modifiers = control ∷ [] }

abbrev shift_down : Held
shift_down j = key_leftshift == j

shifted-IsSynced : IsSynced shifted shift_down
shifted-IsSynced j h = ground arith

send_key_press_and_release-restores_example :
    (xs : List Action) × (send_key_press_and_release ctrl_c shifted
      ≡ record shifted { actions = shifted.actions ++ xs })
    × ((j : Key) → replay xs shift_down j ≡ (not (ctrl_c.key == j) && shift_down j))
unfolding is_modifier_key
send_key_press_and_release-restores_example =
    send_key_press_and_release-restores ctrl_c shifted shift_down shifted-IsSynced refl

send_key_press_and_release-chord_example :
    (before after : List Action) × (send_key_press_and_release ctrl_c shifted ≡ record shifted {
      actions = shifted.actions ++ (before ++ key_action ctrl_c.key press ∷ after);
    })
    × ((n : ℕ) (m : Modifier)
        → get_elem? ctrl_c.modifiers n ≡ some m
        → is_modifier_key (key_of m) ≡ true
        → IsDown (replay before shift_down) m)
    × ((j : Key)
        → is_modifier_key j ≡ true
        → replay before shift_down j ≡ true
        → (contains_modifier ctrl_c.modifiers j || contains shifted.extra_modifiers j) ≡ true)
send_key_press_and_release-chord_example =
    send_key_press_and_release-chord ctrl_c shifted shift_down shifted-IsSynced

-- Escape alone, Ctrl when held, with a timeout.
abbrev ctrl_or_escape : MultiPurposeKey
ctrl_or_escape = record {
  held = one_key key_leftctrl;
  alone = one_key key_esc;
  alone_timeout = 7;
  free_hold = false;
}

abbrev a_down : Held
a_down j = key_a == j

-- It repeats, and `key_x` is pressed before it is released.
abbrev turns : List Turn
turns =
    again env
    ∷ Turn.other (record { key = key_x; value = press }) ((key_x, press) ∷ [])
    ∷ again env
    ∷ []

lifetime-leaves_example : (a_down key_x || contains (others_press turns) key_x) ≡ true
unfolding lifetime replay to_release take_turn own_event dispatch_multi_purpose flush_timeout_keys
    ahk_wayland.Handler.MultiPurpose.force_all repeat_state maintain_pressed_keys presses
    ahk_wayland.Handler.MultiPurpose.force_held ahk_wayland.Handler.MultiPurpose.sort_by
    ahk_wayland.Config.Types.into_vec release_state
lifetime-leaves_example =
    lifetime-leaves env env ctrl_or_escape key_a turns fresh a_down key_x refl refl
      (tt, (λ same. absurd (omega arith), (tt, tt))) refl

-- While `key_a` is held and was sent as `key_b`, another key goes down and `key_a` repeats.
abbrev others : List Passed
others =
    (record { key = key_x; value = press; made = (key_x, press) ∷ [] })
    ∷ (record { key = key_a; value = repeat; made = (key_c, repeat) ∷ [] })
    ∷ []

maintain_pressed_keys-release_example :
    let held =
      maintain_all others (maintain_pressed_keys key_a press ((key_b, press) ∷ []) fresh).1 in
    ((maintain_pressed_keys key_a release ((key_c, release) ∷ []) held).0 ≡ (key_b, release) ∷ [])
    × ((maintain_pressed_keys key_a repeat ((key_c, repeat) ∷ []) held).0 ≡ (key_b, repeat) ∷ [])
    × (map_get key_a
          (maintain_pressed_keys key_a release ((key_c, release) ∷ []) held).1.pressed_keys
        ≡ none)
    × (maintain_pressed_keys key_a release [] held ≡ ([], held))
    × (maintain_pressed_keys key_a release ((key_c, release) ∷ (key_x, release) ∷ []) held
        ≡ ((key_c, release) ∷ (key_x, release) ∷ [], held))
    × (map_get key_a held.pressed_keys ≡ some key_b)
maintain_pressed_keys-release_example =
    maintain_pressed_keys-release key_a key_b key_c (key_c, release) (key_x, release) [] others
      fresh ((λ same. absurd (omega arith)), ((λ same. refl), tt))

abbrev pub tap_of_a : List Arrival
tap_of_a =
    (record { env = env; device = device; event = record { key = key_a; value = press } })
    ∷ (record { env = env; device = device; event = record { key = key_a; value = release } })
    ∷ []

pub no_config-IsEmptyConfig : IsEmptyConfig no_config
no_config-IsEmptyConfig = record {
  no_modmap = refl;
  no_keymap = refl;
  no_virtual = refl;
  no_hotstrings = refl;
}

pub fresh-IsIdle : IsIdle fresh
fresh-IsIdle = record { no_override = refl; no_multi = refl; as_itself = λ k j e. ground arith }

on_events-forwards_example :
    (s' : EventHandler) × (on_events no_config (arrivals tap_of_a) fresh
      ≡ ok (forwarded tap_of_a, s'))
    × IsIdle s'
    × (s'.actions ≡ [])
on_events-forwards_example =
    on_events-forwards no_config tap_of_a fresh no_config-IsEmptyConfig fresh-IsIdle refl

abbrev right : RelativeEvent
right = record { code = 0; value = pos 3 }

abbrev up : RelativeEvent
up = record { code = 1; value = negsuc 2 }

disguised_key-injective_example :
    (disguised_key right ≡ disguised_key up
      → (right.code ≡ up.code) × (is_backward right.value ≡ is_backward up.value))
    × (disguised_event_offsetter ≤ disguised_key right)
    × (disguised_key right < key_match_any)
disguised_key-injective_example = disguised_key-injective right up (omega arith) (omega arith)

-- The multi-purpose key waits while another key goes down.
abbrev waiting : EventHandler
waiting = record fresh { multi_purpose_keys = (key_esc, new_state env ctrl_or_escape) ∷ [] }

abbrev press_of_a : KeyValues
press_of_a = (key_a, press) ∷ []

flush_timeout_keys-settles_example :
    All IsSettled (flush_timeout_keys press_of_a waiting).1.multi_purpose_keys
    × (tracked_keys (flush_timeout_keys press_of_a waiting).1.multi_purpose_keys
        ≡ tracked_keys waiting.multi_purpose_keys)
    × ((j : Key)
        → contains (presses press_of_a) j ≡ true
        → contains (presses (flush_timeout_keys press_of_a waiting).0) j ≡ true)
flush_timeout_keys-settles_example = flush_timeout_keys-settles press_of_a waiting refl
