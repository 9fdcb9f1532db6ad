-- ===== src/Handler/PressedKeys.antt =====
-- event_handler.rs, maintain_pressed_keys: a key is released as the key that it was pressed as.
use ahk_wayland.Prelude.{
  ◌≡◌, refl, none, some, List, [], ◌∷◌, map_get, map_insert, map_get-insert, map_get-remove, arith,
  All, ◌∙◌,
}
use ahk_wayland.Key.{Key}
use ahk_wayland.Event.{KeyValue, press, release, repeat}
use ahk_wayland.Handler.State.{EventHandler}
use ahk_wayland.Handler.MultiPurpose.{KeyValues, maintain_one, maintain_pressed_keys}

-- What the modmaps made of one event: its key and value, and the keys and values.
pub record Passed : Type 0 where
  pub key : Key
  pub value : KeyValue
  pub made : KeyValues

unfoldable pub maintain_all : List Passed → EventHandler → EventHandler
maintain_all [] s = s
maintain_all (p ∷ ps) s = maintain_all ps (maintain_pressed_keys p.key p.value p.made s).1

-- The event is one of another key, or a repeat of this one.
abbrev pub IsOther : Key → Passed → Type 0
IsOther k p = (p.key ≡ k → p.value ≡ repeat)

maintain_one-keeps :
    (k i : Key) (v : KeyValue) (j : Key) (s : EventHandler)
    → (i ≡ k → v ≡ repeat)
    → map_get k (maintain_one i v j s).1.pressed_keys ≡ map_get k s.pressed_keys
unfolding maintain_one
maintain_one-keeps k i press j s other = ground (arith, map_get-insert i j s.pressed_keys k)
maintain_one-keeps k i release j s other = ground (arith, map_get-remove i s.pressed_keys k)
maintain_one-keeps k i repeat j s other = refl

maintain-keeps :
    (k : Key) (p : Passed) (s : EventHandler) (made : KeyValues)
    → IsOther k p
    → map_get k (maintain_pressed_keys p.key p.value made s).1.pressed_keys
      ≡ map_get k s.pressed_keys
unfolding maintain_pressed_keys
maintain-keeps k p s [] other = refl
maintain-keeps k p s ((j, w) ∷ []) other =
    ground (arith, maintain_one-keeps k p.key p.value j s other)
maintain-keeps k p s (a ∷ b ∷ rest) other = refl

maintain_all-keeps :
    (k : Key) (ps : List Passed) (s : EventHandler)
    → All (IsOther k) ps
    → map_get k (maintain_all ps s).pressed_keys ≡ map_get k s.pressed_keys
unfolding maintain_all
maintain_all-keeps k [] s h = refl
maintain_all-keeps k (p ∷ ps) s h = maintain_all-keeps k ps _ h.1 ∙ maintain-keeps k p s p.made h.0

-- A key is pressed and sent as one key, `j`. Whatever other keys do then, and however often the key
-- repeats: if the modmaps make just one key of its repeat or its release, with the same value, `j` is
-- sent instead, and after that release nothing is remembered for it. If they make no key of its
-- release, or several, these are sent as they are, and the key is still remembered as `j`.
pub maintain_pressed_keys-release :
    (k j i : Key) (a b : Key × KeyValue) (rest : KeyValues) (ps : List Passed) (s : EventHandler)
    → All (IsOther k) ps
    → let held = maintain_all ps (maintain_pressed_keys k press ((j, press) ∷ []) s).1 in
      ((maintain_pressed_keys k release ((i, release) ∷ []) held).0 ≡ (j, release) ∷ [])
      × ((maintain_pressed_keys k repeat ((i, repeat) ∷ []) held).0 ≡ (j, repeat) ∷ [])
      × (map_get k (maintain_pressed_keys k release ((i, release) ∷ []) held).1.pressed_keys ≡ none)
      × (maintain_pressed_keys k release [] held ≡ ([], held))
      × (maintain_pressed_keys k release (a ∷ b ∷ rest) held ≡ (a ∷ b ∷ rest, held))
      × (map_get k held.pressed_keys ≡ some j)
unfolding maintain_pressed_keys
maintain_pressed_keys-release k j i a b rest ps s h =
    let pressed = record s { pressed_keys = map_insert k j s.pressed_keys } in
    let kept : map_get k (maintain_all ps pressed).pressed_keys ≡ some j =
      maintain_all-keeps k ps pressed h ∙ ground (arith, map_get-insert k j s.pressed_keys k) in
    (
      rw kept,
      rw kept,
      ground (arith, map_get-remove k (maintain_all ps pressed).pressed_keys k),
      refl,
      refl,
      kept,
    )
