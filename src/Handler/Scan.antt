-- ===== src/Handler/Scan.antt =====
-- event_handler.rs, find_keymap: which entries win.
use mathlib.Core.Path.{fun_ext}
use ahk_wayland.Prelude.{
  ◌≡◌, refl, sym, ap, ◌∙◌, Bool, true, false, not, ◌&&◌, ◌||◌, Option, none, some, List, [], ◌∷◌,
  ◌++◌, is_empty, is_some, append_assoc, append-nil, arith, Bool-cases, inl, inr, if◌then◌else◌,
}
use ahk_wayland.Key.{Key}
use ahk_wayland.Config.Types.{KeymapEntry, OverrideEntry, KeymapAction}
use ahk_wayland.InputDevice.{InputDeviceInfo}
use ahk_wayland.Handler.State.{EventHandler}
use ahk_wayland.Handler.Modifiers.{TaggedAction, is_remap, with_extra_modifiers}
use ahk_wayland.Handler.Lookup.{
  tagged, found_if_any, scan_step, scan_globals, scan_overrides, entry_ok, modifiers_ok,
}

-- What both scans are meant to do, over a list of entries of any kind: each with whether it
-- applies, whether it only opens a nested remap, and its actions.
pub record Candidate : Type 0 where
  pub applies : Bool
  pub remaps_only : Bool
  pub actions : List TaggedAction

-- The actions of all remaps that apply.
abbrev pub all_remaps : List Candidate → List TaggedAction
all_remaps [] = []
all_remaps (c ∷ cs) =
    let rest = all_remaps cs in if c.applies && c.remaps_only then c.actions ++ rest else rest

-- The first entry that applies decides: its actions, or, if it opens a nested remap, those of all
-- remaps that apply.
abbrev pub winner : List Candidate → Option (List TaggedAction)
winner [] = none
winner (c ∷ cs) =
    let later = winner cs in
    if not c.applies
    then later
    else if c.remaps_only
    then some (c.actions ++ all_remaps cs)
    else some c.actions

abbrev pub scan : List Candidate → List TaggedAction → Option (List TaggedAction)
scan [] remaps = found_if_any remaps
scan (c ∷ cs) remaps = scan_step c.applies c.remaps_only c.actions remaps (λ rs. scan cs rs)

-- An entry that only opens remaps has at least one action.
abbrev pub IsFull : List Candidate → Type 0
IsFull [] = Unit
IsFull (c ∷ cs) = (c.remaps_only ≡ true → is_empty c.actions ≡ false) × IsFull cs

is_empty-append {ℓ} :
    {A : Type ℓ} (xs ys : List A) → is_empty xs ≡ false → is_empty (xs ++ ys) ≡ false
is_empty-append [] ys h = ground arith
is_empty-append (x ∷ xs) ys h = refl

found-full : (xs : List TaggedAction) → is_empty xs ≡ false → found_if_any xs ≡ some xs
found-full [] h = ground arith
found-full (x ∷ xs) h = refl

scan-gathering :
    (cs : List Candidate) (remaps : List TaggedAction)
    → is_empty remaps ≡ false
    → scan cs remaps ≡ some (remaps ++ all_remaps cs)
scan-gathering [] remaps h = found-full remaps h ∙ ap some (sym (append-nil remaps))
scan-gathering (c ∷ cs) remaps h = elim (Bool-cases c.applies) [
  | inr skipped ↦ rw (skipped, scan-gathering cs remaps h)
  | inl applies ↦ elim (Bool-cases c.remaps_only) [
    | inl opens ↦ rw (
      applies,
      h,
      opens,
      scan-gathering cs (remaps ++ c.actions) (is_empty-append remaps c.actions h),
      append_assoc remaps c.actions (all_remaps cs),
    )
    | inr plain ↦ rw (applies, h, plain, scan-gathering cs remaps h)
  ]
]

scan-winner : (cs : List Candidate) → IsFull cs → scan cs [] ≡ winner cs
scan-winner [] h = refl
scan-winner (c ∷ cs) h = elim (Bool-cases c.applies) [
  | inr skipped ↦ rw (skipped, scan-winner cs h.1)
  | inl applies ↦ elim (Bool-cases c.remaps_only) [
    | inl opens ↦ rw (applies, opens, scan-gathering cs c.actions (h.0 opens))
    | inr plain ↦ rw (applies, plain)
  ]
]

tagged-full :
    (xs : List KeymapAction) (ks : List Key) (e : Bool)
    → is_remap xs ≡ true
    → is_empty (with_extra_modifiers xs ks e) ≡ false
unfolding is_remap with_extra_modifiers
tagged-full [] ks e h = ground arith
tagged-full (x ∷ xs) [] e h = refl
tagged-full (x ∷ xs) (k ∷ ks) e h = refl

module _ (d : InputDeviceInfo) (pass : Bool) (s : EventHandler) where
  -- An entry of the table in the second pass.
  abbrev pub global_candidate : KeymapEntry → Candidate
  global_candidate e = record {
    applies = entry_ok pass d e s && not (is_some e.title || is_some e.application);
    remaps_only = is_remap e.actions;
    actions = tagged e.actions e.modifiers e.exact_match s;
  }

  abbrev pub global_candidates : List KeymapEntry → List Candidate
  global_candidates [] = []
  global_candidates (e ∷ es) = global_candidate e ∷ global_candidates es

  abbrev pub override_candidate : OverrideEntry → Candidate
  override_candidate e = record {
    applies = modifiers_ok pass e.exact_match e.modifiers s;
    remaps_only = is_remap e.actions;
    actions = tagged e.actions e.modifiers e.exact_match s;
  }

  abbrev pub override_candidates : List OverrideEntry → List Candidate
  override_candidates [] = []
  override_candidates (e ∷ es) = override_candidate e ∷ override_candidates es

  global_candidates-IsFull : (es : List KeymapEntry) → IsFull (global_candidates es)
  global_candidates-IsFull [] = tt
  global_candidates-IsFull (e ∷ es) =
      (λ h. tagged-full e.actions _ e.exact_match h, global_candidates-IsFull es)

  override_candidates-IsFull : (es : List OverrideEntry) → IsFull (override_candidates es)
  override_candidates-IsFull [] = tt
  override_candidates-IsFull (e ∷ es) =
      (λ h. tagged-full e.actions _ e.exact_match h, override_candidates-IsFull es)

  scan_globals-scan :
      (es : List KeymapEntry) (remaps : List TaggedAction)
      → scan_globals d pass es s remaps ≡ scan (global_candidates es) remaps
  unfolding scan_globals
  scan_globals-scan [] remaps = refl
  scan_globals-scan (e ∷ es) remaps =
      ap
        (λ (next : List TaggedAction → Option (List TaggedAction)).
          scan_step (global_candidate e).applies (is_remap e.actions)
            (tagged e.actions e.modifiers e.exact_match s) remaps next)
        (fun_ext (scan_globals-scan es))

  scan_overrides-scan :
      (es : List OverrideEntry) (remaps : List TaggedAction)
      → scan_overrides pass es s remaps ≡ scan (override_candidates es) remaps
  unfolding scan_overrides
  scan_overrides-scan [] remaps = refl
  scan_overrides-scan (e ∷ es) remaps =
      ap
        (λ (next : List TaggedAction → Option (List TaggedAction)).
          scan_step (override_candidate e).applies (is_remap e.actions)
            (tagged e.actions e.modifiers e.exact_match s) remaps next)
        (fun_ext (scan_overrides-scan es))

-- In the pass over the global entries the first one that applies wins: the result is its actions,
-- or, if it only opens nested remaps, those of all the remaps among the entries that apply.
pub scan_globals-winner :
    (d : InputDeviceInfo) (pass : Bool) (s : EventHandler) (es : List KeymapEntry)
    → scan_globals d pass es s [] ≡ winner (global_candidates d pass s es)
scan_globals-winner d pass s es =
    scan_globals-scan d pass s es []
    ∙ scan-winner (global_candidates d pass s es) (global_candidates-IsFull d pass s es)

-- In a pass over the entries of the open nested remaps the first one that applies wins: the result
-- is its actions, or, if it only opens further nested remaps, those of all the remaps among the
-- entries that apply.
scan_overrides-winner :
    (d : InputDeviceInfo) (pass : Bool) (s : EventHandler) (es : List OverrideEntry)
    → scan_overrides pass es s [] ≡ winner (override_candidates d pass s es)
scan_overrides-winner d pass s es =
    scan_overrides-scan d pass s es []
    ∙ scan-winner (override_candidates d pass s es) (override_candidates-IsFull d pass s es)
