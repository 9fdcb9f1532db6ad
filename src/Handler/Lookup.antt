-- ===== src/Handler/Lookup.antt =====
-- event_handler.rs, find_keymap: the actions for a key, from the nested remaps or from the keymap
-- table.
use ahk_wayland.Prelude.{
  Bool, true, false, not, ◌&&◌, ◌||◌, Option, none, some, List, [], ◌∷◌, ◌++◌, is_empty, is_some,
  if◌then◌else◌,
}
use ahk_wayland.Key.{Key}
use ahk_wayland.Event.{press, release}
use ahk_wayland.Config.Types.{Config, KeymapEntry, OverrideEntry, KeymapAction, Modifier}
use ahk_wayland.Config.Keymap.{entries_of}
use ahk_wayland.InputDevice.{InputDeviceInfo}
use ahk_wayland.Handler.State.{EventHandler, Env, Outcome, ok, err, ◌>>=◌, send_key}
use ahk_wayland.Handler.Modifiers.{
  TaggedAction, extra_modifiers, missing_modifiers, is_remap, with_extra_modifiers,
}
use ahk_wayland.Handler.Matching.{match_window, match_application, device_ok, mode_ok}

unfoldable pub remove_override : Env → EventHandler → Outcome EventHandler
remove_override env s =
    if env.timer_unset_ok
    then ok (record s { override_timer = none; override_remaps = []; override_timeout_key = none })
    else err

unfoldable pub tap_keys : List Key → EventHandler → EventHandler
tap_keys [] s = s
tap_keys (k ∷ ks) s = tap_keys ks (send_key k release (send_key k press s))

abbrev pub or_no_keys : Option (List Key) → List Key
or_no_keys none = []
or_no_keys (some ks) = ks

unfoldable pub timeout_override : Env → EventHandler → Outcome EventHandler
unfolding remove_override tap_keys
timeout_override env s =
    remove_override env
      (tap_keys (or_no_keys s.override_timeout_key) (record s { override_timeout_key = none }))

-- Whether an entry is tried in a pass, and with which modifiers in excess: `pass` is the
-- `exact_match` of the loop over the two passes.
unfoldable pub modifiers_ok : Bool → Bool → List Modifier → EventHandler → Bool
modifiers_ok pass exact_match wanted s =
    not (exact_match && not pass)
    && (not (pass && not (is_empty (extra_modifiers s.modifiers wanted)))
        && is_empty (missing_modifiers s.modifiers wanted))

abbrev pub tagged : List KeymapAction → List Modifier → Bool → EventHandler → List TaggedAction
tagged actions wanted exact_match s =
    with_extra_modifiers actions (extra_modifiers s.modifiers wanted) exact_match

abbrev pub found_if_any : List TaggedAction → Option (List TaggedAction)
found_if_any [] = none
found_if_any (a ∷ xs) = some (a ∷ xs)

-- The step of both scans that gather remaps: `applies` says that the entry is not skipped.
abbrev pub scan_step :
    Bool
    → Bool
    → List TaggedAction
    → List TaggedAction
    → (List TaggedAction → Option (List TaggedAction))
    → Option (List TaggedAction)
scan_step applies remaps_only actions remaps next =
    if not applies
    then next remaps
    else if is_empty remaps && not remaps_only
    then some actions
    else if remaps_only
    then next (remaps ++ actions)
    else next remaps

unfoldable pub scan_overrides :
    Bool → List OverrideEntry → EventHandler → List TaggedAction → Option (List TaggedAction)
scan_overrides pass [] s remaps = found_if_any remaps
scan_overrides pass (e ∷ es) s remaps =
    scan_step (modifiers_ok pass e.exact_match e.modifiers s) (is_remap e.actions)
      (tagged e.actions e.modifiers e.exact_match s) remaps (λ rs. scan_overrides pass es s rs)

abbrev pub or_try {ℓ} : {A : Type ℓ} → Option A → Option A → Option A
or_try none b = b
or_try (some a) b = some a

unfoldable pub override_entries : Key → List (List (Key × List OverrideEntry)) → List OverrideEntry
override_entries k [] = []
override_entries k (t ∷ ts) = entries_of k t ++ override_entries k ts

-- The first pass over the table's entries: those with a window or an application condition.
-- A window condition decides alone; the application is asked only if there is none.
unfoldable pub context_ok : Env → KeymapEntry → EventHandler → Bool × EventHandler
context_ok env e s = elim e.title [
  | some m ↦ match_window env m s
  | none ↦ elim e.application [ some m ↦ match_application env m s | none ↦ (false, s) ]
]

abbrev pub entry_ok : Bool → InputDeviceInfo → KeymapEntry → EventHandler → Bool
entry_ok pass d e s =
    modifiers_ok pass e.exact_match e.modifiers s && (device_ok e.device d && mode_ok e.mode s.mode)

unfoldable pub scan_contexts :
    Env
    → InputDeviceInfo
    → Bool
    → List KeymapEntry
    → EventHandler
    → Option (List TaggedAction) × EventHandler
unfolding context_ok
scan_contexts env d pass [] s = (none, s)
scan_contexts env d pass (e ∷ es) s =
    let skipped = scan_contexts env d pass es s in
    let (holds, s') = context_ok env e s in
    let missed = scan_contexts env d pass es s' in
    if not (entry_ok pass d e s)
    then skipped
    else if holds
    then (some (tagged e.actions e.modifiers e.exact_match s'), s')
    else missed

-- The second pass: the entries with neither condition.
unfoldable pub scan_globals :
    InputDeviceInfo
    → Bool
    → List KeymapEntry
    → EventHandler
    → List TaggedAction
    → Option (List TaggedAction)
scan_globals d pass [] s remaps = found_if_any remaps
scan_globals d pass (e ∷ es) s remaps =
    scan_step (entry_ok pass d e s && not (is_some e.title || is_some e.application))
      (is_remap e.actions) (tagged e.actions e.modifiers e.exact_match s) remaps
      (λ rs. scan_globals d pass es s rs)

abbrev pub or_else_do :
    Option (List TaggedAction) × EventHandler
    → (EventHandler → Option (List TaggedAction) × EventHandler)
    → Option (List TaggedAction) × EventHandler
or_else_do (some xs, s) k = (some xs, s)
or_else_do (none, s) k = k s

unfoldable pub scan_pass :
    Env
    → InputDeviceInfo
    → Bool
    → List KeymapEntry
    → EventHandler
    → Option (List TaggedAction) × EventHandler
unfolding scan_contexts scan_globals
scan_pass env d pass es s =
    or_else_do (scan_contexts env d pass es s) (λ s'. (scan_globals d pass es s' [], s'))

unfoldable pub scan_table :
    Env
    → InputDeviceInfo
    → List KeymapEntry
    → EventHandler
    → Option (List TaggedAction) × EventHandler
unfolding scan_pass
scan_table env d es s = or_else_do (scan_pass env d true es s) (λ s'. scan_pass env d false es s')

abbrev pub Found : Type 0
Found = Option (List TaggedAction) × EventHandler

-- The part on the nested remaps: the actions found there, or the state to go on with.
unfoldable pub find_override : Env → Key → EventHandler → Outcome Found
unfolding scan_overrides override_entries remove_override timeout_override
find_override env k s =
    let entries = override_entries k s.override_remaps in
    if is_empty s.override_remaps
    then ok (none, s)
    else if is_empty entries
    then (do s' ← timeout_override env s; ok (none, s'))
    else do
      s1 ← remove_override env s
      let found = or_try (scan_overrides true entries s1 []) (scan_overrides false entries s1 [])
      elim found [
        | some xs ↦ ok (some xs, s1)
        | none ↦ do s2 ← timeout_override env s1; ok (none, s2)
      ]

unfoldable pub find_keymap : Env → Config → InputDeviceInfo → Key → EventHandler → Outcome Found
unfolding find_override scan_table
find_keymap env config d k s = do
  found ← find_override env k s
  ok (or_else_do found (λ s'. scan_table env d (entries_of k config.keymap_table) s'))
