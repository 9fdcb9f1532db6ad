-- ===== src/InputDevice/Grab.antt =====
-- device.rs, grab and wait_for_all_keys_up: when a device is grabbed.
use ahk_wayland.Prelude.{
  ℕ, zero, suc, ◌+◌, ◌<◌, ◌≡◌, ◌≢◌, ◌↔◌, ◌⊎◌, inl, inr, refl, ap, sym, ◌∙◌, arith, Bool, true,
  Option, List,
}
use mathlib.Core.Path.{subst}
use ahk_wayland.Key.{Key}
use ahk_wayland.InputDevice.Devices.{
  InputDevice, says, or_later, Waited, released, failed, timed_out, poll, wait_for_all_keys_up,
  grab, grab_after,
}

-- Each of the first polls says that a key is down.
abbrev pub DownUntil : (ℕ → Option (List Key)) → ℕ → Type 0
DownUntil key_states n = (m : ℕ) → m < n → says (key_states m) ≡ timed_out

-- One of the first polls says something else first, and what it says is the result; or none does.
abbrev pub Decided : (ℕ → Option (List Key)) → ℕ → Waited → Type 0
Decided key_states limit r =
    ((n : ℕ) × (n < limit) × (says (key_states n) ≡ r) × (r ≢ timed_out) × DownUntil key_states n)
    ⊎ ((r ≡ timed_out) × DownUntil key_states limit)

-- One poll more.
DownUntil-next :
    (key_states : ℕ → Option (List Key)) (n : ℕ)
    → DownUntil key_states n
    → says (key_states n) ≡ timed_out
    → DownUntil key_states (n + 1)
DownUntil-next key_states n before e m lt = grind (arith, before m, same)
  where
    same : m ≡ n → says (key_states m) ≡ says (key_states n)
    same h = ap (λ k. says (key_states k)) h

or_later-Decided :
    (key_states : ℕ → Option (List Key)) (limit n : ℕ) (r later : Waited)
    → n < limit
    → says (key_states n) ≡ r
    → DownUntil key_states n
    → (DownUntil key_states (n + 1) → Decided key_states limit later)
    → Decided key_states limit (or_later r later)
or_later-Decided key_states limit n timed_out later lt e before go_on =
    go_on (DownUntil-next key_states n before e)
or_later-Decided key_states limit n failed later lt e before go_on =
    inl (n, lt, e, λ same. cc same, before)
or_later-Decided key_states limit n released later lt e before go_on =
    inl (n, lt, e, λ same. cc same, before)

poll-Decided :
    (key_states : ℕ → Option (List Key)) (left n limit : ℕ)
    → n + left ≡ limit
    → DownUntil key_states n
    → Decided key_states limit (poll key_states n left)
unfolding poll
poll-Decided key_states zero n limit e before = inr (refl, λ m lt. before m (omega (arith, e, lt)))
poll-Decided key_states (suc left) n limit e before =
    or_later-Decided key_states limit n (says (key_states n)) (poll key_states (n + 1) left)
      (omega (arith, e)) refl before (poll-Decided key_states left (n + 1) limit (omega (arith, e)))

-- One of the first polls finds no key down, after polls that all find one.
abbrev pub IsReleasedBefore : ℕ → InputDevice → Type 0
IsReleasedBefore limit d =
    (n : ℕ) × (n < limit)
    × (says (d.device.key_states n) ≡ released)
    × DownUntil d.device.key_states n

Decided-released :
    (d : InputDevice) (limit : ℕ)
    → Decided d.device.key_states limit released
    → IsReleasedBefore limit d
Decided-released d limit (inl (n, lt, e, _, before)) = (n, lt, e, before)
Decided-released d limit (inr (e, _)) = absurd (cc e)

compare_cases : (m n : ℕ) → (m < n) ⊎ (n < m) ⊎ (m ≡ n)
compare_cases m n = grind arith

IsReleasedBefore-decides :
    (d : InputDevice) (limit : ℕ) (r : Waited)
    → Decided d.device.key_states limit r
    → IsReleasedBefore limit d
    → r ≡ released
IsReleasedBefore-decides d limit r (inr (e, all)) (n, lt, h, before) = cc (all n lt, h)
IsReleasedBefore-decides d limit r (inl (m, lt', e, ne, before')) (n, lt, h, before) =
    elim (compare_cases m n) [
      | inl below ↦ absurd (ne (sym e ∙ before m below))
      | inr (inl above) ↦ cc (before' n above, h)
      | inr (inr here) ↦ sym e ∙ ap (λ k. says (d.device.key_states k)) here ∙ h
    ]

grab_after-released :
    (b : Bool) (r : Waited) → (grab_after b r ≡ true) ↔ ((r ≡ released) × (b ≡ true))
grab_after-released b released = (λ e. (refl, e), λ e. e.1)
grab_after-released b failed = (λ e. absurd (cc e), λ e. absurd (cc (e.0)))
grab_after-released b timed_out = (λ e. absurd (cc e), λ e. absurd (cc (e.0)))

-- A device is grabbed just if one of the first fifty polls finds no key down, all polls before it
-- found one, with no error, and the system then lets it be grabbed.
pub grab-IsReleasedBefore :
    (d : InputDevice) → (grab d ≡ true) ↔ (IsReleasedBefore 50 d × (d.device.can_grab ≡ true))
unfolding grab wait_for_all_keys_up
grab-IsReleasedBefore d =
    let decided =
      poll-Decided d.device.key_states 50 0 50 refl (λ m lt. absurd (omega (arith, lt))) in
    (
      λ e.
          let (r, b) =
            (grab_after-released d.device.can_grab (poll d.device.key_states 0 50)).0 e in
          (Decided-released d 50 (subst (Decided d.device.key_states 50) r decided), b),
      λ h.
          (grab_after-released d.device.can_grab (poll d.device.key_states 0 50)).1
            (IsReleasedBefore-decides d 50 (poll d.device.key_states 0 50) decided h.0, h.1),
    )
