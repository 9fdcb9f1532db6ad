-- ===== src/Handler/Idle.antt =====
-- event_handler.rs: the handler with nothing going on, and what its steps keep of that.
use ahk_wayland.Prelude.{
  ◌≡◌, refl, true, false, none, some, [], ◌∷◌, map_get, map_get-insert, map_get-remove, arith,
  Bool-cases, Option-cases, inl, inr, if◌then◌else◌,
}
use ahk_wayland.Key.{Key, is_modifier_key}
use ahk_wayland.Event.{value_eq, KeyValue, press, release, repeat, KeyEvent}
use ahk_wayland.Config.Types.{Config}
use ahk_wayland.Handler.State.{EventHandler, ok}
use ahk_wayland.Handler.Modifiers.{update_modifier}
use ahk_wayland.Handler.MultiPurpose.{maintain_one, maintain_pressed_keys}
use ahk_wayland.Handler.Typing.{type_key}
use ahk_wayland.Handler.OnEvent.{maintain_and_flush, is_pressed}

-- No modmap, no keymap, no virtual modifier and no hotstring.
pub record IsEmptyConfig (config : Config) : Type 0 where
  pub no_modmap : config.modmap ≡ []
  pub no_keymap : config.keymap_table ≡ []
  pub no_virtual : config.virtual_modifiers ≡ []
  pub no_hotstrings : config.hotstring_matcher ≡ none

-- No nested remap is open, no multi-purpose key is down, and the keys that are remembered as
-- pressed were sent as themselves.
pub record IsIdle (s : EventHandler) : Type 0 where
  pub no_override : s.override_remaps ≡ []
  pub no_multi : s.multi_purpose_keys ≡ []
  pub as_itself : (k j : Key) → map_get k s.pressed_keys ≡ some j → j ≡ k

-- What the handler does with a key: it keeps track of modifiers, and sends the key.
abbrev pub tracked : Key → KeyValue → EventHandler → EventHandler
tracked k v s =
    if is_modifier_key k
    then update_modifier k v s
    else if is_pressed v
    then record s { escape_next_key = false }
    else s

pub type_key-none : (k : Key) (s : EventHandler) → type_key none k s ≡ ok (s, false)
unfolding type_key
type_key-none k s = refl

-- What is left to do for a key that came in is what it came in for.
maintain_one_itself :
    (k : Key) (v : KeyValue) (s : EventHandler) → IsIdle s → (maintain_one k v k s).0 ≡ (k, v) ∷ []
unfolding maintain_one
maintain_one_itself k press s h = refl
maintain_one_itself k release s h = elim (Option-cases (map_get k s.pressed_keys)) [
  | inl e ↦ rw e
  | inr (j, e) ↦ rw (e, h.as_itself k j e)
]
maintain_one_itself k repeat s h = elim (Option-cases (map_get k s.pressed_keys)) [
  | inl e ↦ rw e
  | inr (j, e) ↦ rw (e, h.as_itself k j e)
]

pub maintain_one-IsIdle :
    (k : Key) (v : KeyValue) (s : EventHandler) → IsIdle s → IsIdle (maintain_one k v k s).1
unfolding maintain_one
maintain_one-IsIdle k press s h = record {
  no_override = h.no_override;
  no_multi = h.no_multi;
  as_itself = λ i j e. grind (arith, map_get-insert k k s.pressed_keys i, h.as_itself i j);
}
maintain_one-IsIdle k release s h = record {
  no_override = h.no_override;
  no_multi = h.no_multi;
  as_itself = λ i j e. grind (arith, map_get-remove k s.pressed_keys i, h.as_itself i j);
}
maintain_one-IsIdle k repeat s h = h

pub maintain_one-actions :
    (k : Key) (v : KeyValue) (j : Key) (s : EventHandler)
    → (maintain_one k v j s).1.actions ≡ s.actions
unfolding maintain_one
maintain_one-actions k press j s = refl
maintain_one-actions k release j s = refl
maintain_one-actions k repeat j s = refl

value_eq_refl : (v : KeyValue) → value_eq v v ≡ true
value_eq_refl press = refl
value_eq_refl release = refl
value_eq_refl repeat = refl

pub maintain_and_flush_idle :
    (e : KeyEvent) (s : EventHandler)
    → IsIdle s
    → maintain_and_flush e ((e.key, e.value) ∷ [], s)
      ≡ ((e.key, e.value) ∷ [], (maintain_one e.key e.value e.key s).1)
unfolding maintain_pressed_keys
maintain_and_flush_idle e s h = rw (
  value_eq_refl e.value,
  (maintain_one-IsIdle e.key e.value s h).no_multi,
  maintain_one_itself e.key e.value s h,
)

update_modifier-IsIdle :
    (k : Key) (v : KeyValue) (s : EventHandler) → IsIdle s → IsIdle (update_modifier k v s)
unfolding update_modifier
update_modifier-IsIdle k press s h = record {
  no_override = h.no_override;
  no_multi = h.no_multi;
  as_itself = h.as_itself;
}
update_modifier-IsIdle k release s h = record {
  no_override = h.no_override;
  no_multi = h.no_multi;
  as_itself = h.as_itself;
}
update_modifier-IsIdle k repeat s h = h

update_modifier-actions :
    (k : Key) (v : KeyValue) (s : EventHandler) → (update_modifier k v s).actions ≡ s.actions
unfolding update_modifier
update_modifier-actions k press s = refl
update_modifier-actions k release s = refl
update_modifier-actions k repeat s = refl

pub tracked-IsIdle : (k : Key) (v : KeyValue) (s : EventHandler) → IsIdle s → IsIdle (tracked k v s)
tracked-IsIdle k v s h = elim (Bool-cases (is_modifier_key k)) [
  | inl m ↦ rw m (update_modifier-IsIdle k v s h)
  | inr m ↦ elim (Bool-cases (is_pressed v)) [
    | inl p ↦
        rw (m, p)
          (record { no_override = h.no_override; no_multi = h.no_multi; as_itself = h.as_itself })
    | inr p ↦ rw (m, p) h
  ]
]

pub tracked-actions :
    (k : Key) (v : KeyValue) (s : EventHandler) → (tracked k v s).actions ≡ s.actions
tracked-actions k v s = elim (Bool-cases (is_modifier_key k)) [
  | inl m ↦ rw m (update_modifier-actions k v s)
  | inr m ↦ elim (Bool-cases (is_pressed v)) [ inl p ↦ rw (m, p) | inr p ↦ rw (m, p) ]
]
