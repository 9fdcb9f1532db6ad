-- ===== src/Prelude/Lists.antt =====
-- Lists measured and indexed by native numbers, Boolean filters, and sets and maps of numbers as
-- lists: a `HashSet` is a list without regard to order, a `HashMap` an association list.
use Prim.Native.Nat.{ℕ, zero, suc, ◌+◌}
use mathlib.Core.Path.{◌≡◌, refl, ap}
use mathlib.Core.Bool.{Bool, true, false, not, ◌&&◌, ◌||◌}
use mathlib.Core.List.{List, [], ◌∷◌, ◌++◌}
use mathlib.Core.Option.{Option, none, some}
use native.Mathlib.Omega.{arith}
use ahk_wayland.Prelude.Tests.{◌==◌, if◌then◌else◌}

module _ {ℓ} {A : Type ℓ} where
  abbrev pub length : List A → ℕ
  length [] = 0
  length (x ∷ xs) = suc (length xs)

  abbrev pub is_empty : List A → Bool
  is_empty [] = true
  is_empty (x ∷ xs) = false

  abbrev pub get_elem? : List A → ℕ → Option A
  get_elem? [] i = none
  get_elem? (x ∷ xs) zero = some x
  get_elem? (x ∷ xs) (suc i) = get_elem? xs i

  abbrev pub retain : (A → Bool) → List A → List A
  retain p [] = []
  retain p (x ∷ xs) = let rest = retain p xs in if p x then x ∷ rest else rest

  abbrev pub any : (A → Bool) → List A → Bool
  any p [] = false
  any p (x ∷ xs) = p x || any p xs

  abbrev pub all : (A → Bool) → List A → Bool
  all p [] = true
  all p (x ∷ xs) = p x && all p xs

  pub length-append : (xs ys : List A) → length (xs ++ ys) ≡ length xs + length ys
  length-append [] ys = omega arith
  length-append (x ∷ xs) ys = omega (arith, length-append xs ys)

-- A predicate at every element.
abbrev pub All {ℓ κ} : {A : Type ℓ} → (A → Type κ) → List A → Type κ
All P [] = Unit
All P (x ∷ xs) = P x × All P xs

pub All-append {ℓ κ} :
    {A : Type ℓ} (P : A → Type κ) (xs ys : List A) → All P xs → All P ys → All P (xs ++ ys)
All-append P [] ys hx hy = hy
All-append P (x ∷ xs) ys hx hy = (hx.0, All-append P xs ys hx.1 hy)

-- Membership of a number, as the sets of keys test it.
abbrev pub contains : List ℕ → ℕ → Bool
contains [] k = false
contains (x ∷ xs) k = x == k || contains xs k

-- `HashSet::insert` and `HashSet::remove`.
abbrev pub set_insert : ℕ → List ℕ → List ℕ
set_insert k xs = if contains xs k then xs else k ∷ xs

abbrev pub set_remove : ℕ → List ℕ → List ℕ
set_remove k xs = retain (λ x. not (x == k)) xs

pub contains-set_insert :
    (k : ℕ) (xs : List ℕ) (j : ℕ)
    → contains (set_insert k xs) j ≡ (if k == j then true else contains xs j)
contains-set_insert k xs j = ground (arith, contains_eq)
  where
    contains_eq : k ≡ j → contains xs k ≡ contains xs j
    contains_eq e = ap (contains xs) e

pub contains-retain :
    (p : ℕ → Bool) (xs : List ℕ) (j : ℕ) → contains (retain p xs) j ≡ (contains xs j && p j)
contains-retain p [] j = refl
contains-retain p (x ∷ xs) j = ground (arith, contains-retain p xs j, same)
  where
    same : x ≡ j → p x ≡ p j
    same e = ap p e

pub contains-append :
    (xs ys : List ℕ) (j : ℕ) → contains (xs ++ ys) j ≡ (contains xs j || contains ys j)
contains-append [] ys j = refl
contains-append (x ∷ xs) ys j = ground (arith, contains-append xs ys j)

-- A map from keys, as an association list: `get`, `insert` and `remove` of `HashMap`.
module _ {ℓ} {V : Type ℓ} where
  abbrev pub map_get : ℕ → List (ℕ × V) → Option V
  map_get k [] = none
  map_get k ((j, v) ∷ m) = if j == k then some v else map_get k m

  abbrev pub map_insert : ℕ → V → List (ℕ × V) → List (ℕ × V)
  map_insert k v [] = (k, v) ∷ []
  map_insert k v ((j, w) ∷ m) = if j == k then (k, v) ∷ m else (j, w) ∷ map_insert k v m

  abbrev pub map_remove : ℕ → List (ℕ × V) → List (ℕ × V)
  map_remove k [] = []
  map_remove k ((j, w) ∷ m) = let rest = map_remove k m in if j == k then rest else (j, w) ∷ rest

  pub map_get-insert :
      (k : ℕ) (v : V) (m : List (ℕ × V)) (j : ℕ)
      → map_get j (map_insert k v m) ≡ (if k == j then some v else map_get j m)
  map_get-insert k v [] j = refl
  map_get-insert k v ((i, w) ∷ m) j = ground (arith, map_get-insert k v m j)

  pub map_get-remove :
      (k : ℕ) (m : List (ℕ × V)) (j : ℕ)
      → map_get j (map_remove k m) ≡ (if k == j then none else map_get j m)
  map_get-remove k [] j = ground arith
  map_get-remove k ((i, w) ∷ m) j = ground (arith, map_get-remove k m j)
