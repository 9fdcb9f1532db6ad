-- ===== src/Handler/Relative.antt =====
-- event_handler.rs, on_relative_event: the keys that relative events are disguised as.
use ahk_wayland.Prelude.{ℕ, ◌+◌, ◌*◌, ◌≤◌, ◌<◌, ◌≡◌, Bool, true, false, arith}
use ahk_wayland.Key.{disguised_event_offsetter, key_match_any}
use ahk_wayland.Event.{ℤ, pos, negsuc, RelativeEvent}
use ahk_wayland.Handler.OnEvent.{disguised_key}

-- The direction that the disguise keeps: zero counts as forward.
abbrev pub is_backward : ℤ → Bool
is_backward (pos n) = false
is_backward (negsuc n) = true

disguised-parts :
    (c n : ℕ)
    → c ≤ 12
    → (disguised_key (record { code = c; value = pos n }) ≡ c * 2 + disguised_event_offsetter)
      × (disguised_key (record { code = c; value = negsuc n })
          ≡ c * 2 + 1 + disguised_event_offsetter)
unfolding disguised_key
disguised-parts c n h = omega arith

same_disguise :
    (c d : ℕ) (x y : ℤ)
    → c ≤ 12
    → d ≤ 12
    → disguised_key (record { code = c; value = x })
      ≡ disguised_key (record { code = d; value = y })
    → (c ≡ d) × (is_backward x ≡ is_backward y)
unfolding disguised_key
same_disguise c d (pos n) (pos m) h k e = ground arith
same_disguise c d (pos n) (negsuc m) h k e = ground arith
same_disguise c d (negsuc n) (pos m) h k e = ground arith
same_disguise c d (negsuc n) (negsuc m) h k e = ground arith

disguise_range :
    (c : ℕ) (x : ℤ)
    → c ≤ 12
    → (disguised_event_offsetter ≤ disguised_key (record { code = c; value = x }))
      × (disguised_key (record { code = c; value = x }) < key_match_any)
unfolding disguised_key
disguise_range c (pos n) h = omega arith
disguise_range c (negsuc n) h = omega arith

-- On the axes that the kernel has (codes 0 to 12) the disguise loses neither the axis nor the
-- direction, and its keys lie from the offset up to, and not with, the key that matches any: the
-- 16 bits do not overflow.
pub disguised_key-injective :
    (r t : RelativeEvent)
    → r.code ≤ 12
    → t.code ≤ 12
    → (disguised_key r ≡ disguised_key t
        → (r.code ≡ t.code) × (is_backward r.value ≡ is_backward t.value))
      × (disguised_event_offsetter ≤ disguised_key r)
      × (disguised_key r < key_match_any)
disguised_key-injective r t h k = (
  same_disguise r.code t.code r.value t.value h k,
  (disguise_range r.code r.value h).0,
  (disguise_range r.code r.value h).1,
)
