-- ===== src/Prelude/Trim.antt =====
-- `trim` and `strip_suffix` of text whose ends are known.
use mathlib.Core.Path.{◌≡◌, refl, ap, sym, ◌∙◌}
use mathlib.Core.Bool.{Bool, false}
use mathlib.Core.Option.{Option, none, some}
use mathlib.Core.List.{[], ◌∷◌, ◌++◌, reverse, reverse-append, reverse-reverse}
use Prim.Native.Nat.{ℕ}
use ahk_wayland.Prelude.Tests.{==-refl}
use ahk_wayland.Prelude.Texts.{Text, trim_start_matches, trim_matches, strip_prefix, strip_suffix}

-- The last character stays if it is not one that is cut.
pub trim_end-last :
    (p : ℕ → Bool) (s : Text) (d : ℕ)
    → p d ≡ false
    → reverse (trim_start_matches p (reverse (s ++ d ∷ []))) ≡ s ++ d ∷ []
trim_end-last p s d h =
    ap (λ (r : Text). reverse (trim_start_matches p r)) (reverse-append s (d ∷ []))
    ∙ ap reverse (kept ∙ sym (reverse-append s (d ∷ [])))
    ∙ reverse-reverse (s ++ d ∷ [])
  where
    kept : trim_start_matches p (d ∷ reverse s) ≡ d ∷ reverse s
    kept = rw h refl

-- Text between two characters that are not cut stays as it is.
pub trim_matches-between :
    (p : ℕ → Bool) (c : ℕ) (s : Text) (d : ℕ)
    → p c ≡ false
    → p d ≡ false
    → trim_matches p (c ∷ (s ++ d ∷ [])) ≡ c ∷ (s ++ d ∷ [])
trim_matches-between p c s d hc hd = rw hc (trim_end-last p (c ∷ s) d hd)

pub strip_suffix-last : (s : Text) (d : ℕ) → strip_suffix (d ∷ []) (s ++ d ∷ []) ≡ some s
strip_suffix-last s d =
    ap (λ (r : Text). map_reverse (strip_prefix (d ∷ []) r)) (reverse-append s (d ∷ []))
    ∙ ap map_reverse found
    ∙ ap some (reverse-reverse s)
  where
    map_reverse : Option Text → Option Text
    map_reverse o = elim o [ none ↦ none | some r ↦ some (reverse r) ]

    found : strip_prefix (d ∷ []) (d ∷ reverse s) ≡ some (reverse s)
    found = rw (==-refl d) refl
