-- ===== src/Handler/Nested.antt =====
-- event_handler.rs, find_keymap: the next key that is looked up closes the open nested remaps.
use ahk_wayland.Prelude.{
  ◌≡◌, refl, sym, ap, ◌∙◌, true, false, Option, none, some, List, [], ◌∷◌, ◌++◌, is_empty,
  append_assoc, append-nil, Bool-cases, Option-cases, inl, inr, if◌then◌else◌,
}
use ahk_wayland.Key.{Key}
use ahk_wayland.Event.{Action}
use ahk_wayland.Config.Types.{Config}
use ahk_wayland.Config.Keymap.{entries_of}
use ahk_wayland.InputDevice.{InputDeviceInfo}
use ahk_wayland.Ahk.Interpreter.{taps}
use ahk_wayland.Handler.State.{EventHandler, Env, Outcome, ok, ◌>>=◌}
use ahk_wayland.Handler.Modifiers.{TaggedAction}
use ahk_wayland.Handler.Lookup.{
  Found, find_keymap, find_override, override_entries, or_no_keys, or_else_do, remove_override,
  tap_keys, timeout_override, scan_table, or_try, scan_overrides,
}
use ahk_wayland.Handler.Asked.{IsAsked, IsAsked-refl, or_else_do-IsAsked, scan_table-IsAsked}

-- No nested remap is open, the timer is not set, and `xs` has been sent since `s`.
pub record IsClosed (s : EventHandler) (xs : List Action) (s' : EventHandler) : Type 0 where
  pub no_override : s'.override_remaps ≡ []
  pub no_timer : s'.override_timer ≡ none
  pub no_timeout_key : s'.override_timeout_key ≡ none
  pub sent : s'.actions ≡ s.actions ++ xs

IsAsked-IsClosed :
    (s t u : EventHandler) (xs : List Action) → IsClosed s xs t → IsAsked t u → IsClosed s xs u
IsAsked-IsClosed s t u xs h k = rw k.same (record {
  no_override = h.no_override;
  no_timer = h.no_timer;
  no_timeout_key = h.no_timeout_key;
  sent = h.sent;
})

tap_keys-emits :
    (ks : List Key) (s : EventHandler) → tap_keys ks s ≡ record s { actions = s.actions ++ taps ks }
unfolding tap_keys
tap_keys-emits [] s = rw append-nil
tap_keys-emits (k ∷ ks) s = tap_keys-emits ks _ ∙ rw (append_assoc, append_assoc)

timeout_override-closes :
    (env : Env) (s : EventHandler)
    → env.timer_unset_ok ≡ true
    → timeout_override env s
      ≡ ok (record s {
        override_timer = none;
        override_remaps = [];
        override_timeout_key = none;
        actions = s.actions ++ taps (or_no_keys s.override_timeout_key);
      })
unfolding timeout_override remove_override
timeout_override-closes env s h = rw (h, tap_keys-emits)

timeout_override-IsClosed :
    (env : Env) (s : EventHandler)
    → env.timer_unset_ok ≡ true
    → (s' : EventHandler) × (timeout_override env s ≡ ok s')
      × IsClosed s (taps (or_no_keys s.override_timeout_key)) s'
timeout_override-IsClosed env s h = (
  _,
  timeout_override-closes env s h,
  record { no_override = refl; no_timer = refl; no_timeout_key = refl; sent = refl },
)

-- The keys that are sent: those of the timeout if the key is in none of the open remaps.
abbrev pub closing_taps : Key → EventHandler → List Action
closing_taps k s =
    if is_empty (override_entries k s.override_remaps)
    then taps (or_no_keys s.override_timeout_key)
    else []

remove_override-ok :
    (env : Env) (s : EventHandler)
    → env.timer_unset_ok ≡ true
    → remove_override env s
      ≡ ok (record s { override_timer = none; override_remaps = []; override_timeout_key = none })
unfolding remove_override
remove_override-ok env s h = rw h

abbrev after_scan : Env → EventHandler → Option (List TaggedAction) → Outcome Found
after_scan env s (some xs) = ok (some xs, s)
after_scan env s none = do s' ← timeout_override env s; ok (none, s')

find_override-after_scan :
    (env : Env) (k : Key) (s : EventHandler)
    → env.timer_unset_ok ≡ true
    → is_empty s.override_remaps ≡ false
    → is_empty (override_entries k s.override_remaps) ≡ false
    → let s1 = record s {
      override_timer = none;
      override_remaps = [];
      override_timeout_key = none;
    } in
      let entries = override_entries k s.override_remaps in
      find_override env k s
      ≡ after_scan env s1
          (or_try (scan_overrides true entries s1 []) (scan_overrides false entries s1 []))
unfolding find_override
find_override-after_scan env k s h opened there = rw (opened, there, remove_override-ok env s h)

-- A key with entries in the open remaps.
find_entries-IsClosed :
    (env : Env) (k : Key) (s : EventHandler)
    → env.timer_unset_ok ≡ true
    → is_empty s.override_remaps ≡ false
    → is_empty (override_entries k s.override_remaps) ≡ false
    → (found : Found) × (find_override env k s ≡ ok found) × IsClosed s [] found.1
find_entries-IsClosed env k s h opened there =
    let s1 = record s {
      override_timer = none;
      override_remaps = [];
      override_timeout_key = none;
    } in
    let entries = override_entries k s.override_remaps in
    elim (Option-cases
      (or_try (scan_overrides true entries s1 []) (scan_overrides false entries s1 []))) [
        | inr (xs, e) ↦ (
          (some xs, s1),
          find_override-after_scan env k s h opened there ∙ ap (after_scan env s1) e,
          record {
            no_override = refl;
            no_timer = refl;
            no_timeout_key = refl;
            sent = sym (append-nil s.actions);
          },
        )
        | inl e ↦
            let (s2, run, closed) = timeout_override-IsClosed env s1 h in
            (
              (none, s2),
              find_override-after_scan env k s h opened there
                  ∙ ap (after_scan env s1) e
                  ∙ ap (λ r. do s' ← r; ok (none, s')) run,
              record {
                no_override = closed.no_override;
                no_timer = closed.no_timer;
                no_timeout_key = closed.no_timeout_key;
                sent = closed.sent;
              },
            )
      ]

find_override-IsClosed :
    (env : Env) (k : Key) (s : EventHandler)
    → env.timer_unset_ok ≡ true
    → is_empty s.override_remaps ≡ false
    → (found : Found) × (find_override env k s ≡ ok found) × IsClosed s (closing_taps k s) found.1
unfolding find_override
find_override-IsClosed env k s h opened =
    elim (Bool-cases (is_empty (override_entries k s.override_remaps))) [
      | inl absent ↦
          let (s', run, closed) = timeout_override-IsClosed env s h in
          ((none, s'), rw (opened, absent, run), rw absent closed)
      | inr there ↦
          let (found, run, closed) = find_entries-IsClosed env k s h opened there in
          (found, run, rw there closed)
    ]

-- While nested remaps are open and the timer can be unset, the lookup of any key returns, and it
-- closes them all: none is open after it, the timer is not set and the timeout keys are forgotten.
-- Meanwhile it sends nothing if one of the remaps has the key, whether or not an entry for it
-- applies; if none has it, it sends just the taps of the timeout keys.
pub find_keymap-closes :
    (env : Env) (config : Config) (d : InputDeviceInfo) (k : Key) (s : EventHandler)
    → env.timer_unset_ok ≡ true
    → is_empty s.override_remaps ≡ false
    → (found : Found) × (find_keymap env config d k s ≡ ok found)
      × IsClosed s (closing_taps k s) found.1
unfolding find_keymap
find_keymap-closes env config d k s h opened =
    let (found, run, closed) = find_override-IsClosed env k s h opened in
    (
      or_else_do found (λ s'. scan_table env d (entries_of k config.keymap_table) s'),
      rw run,
      IsAsked-IsClosed s found.1 _ (closing_taps k s) closed (
          or_else_do-IsAsked found.1 found _ (IsAsked-refl found.1)
            (λ t. scan_table-IsAsked env d (entries_of k config.keymap_table) t)),
    )
