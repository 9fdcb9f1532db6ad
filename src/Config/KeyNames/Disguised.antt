-- ===== src/Config/KeyNames/Disguised.antt =====
-- config/key.rs and on_relative_event of event_handler.rs: the names of the relative events mean the
-- keys that these events are disguised as.
use mathlib.Core.Path.{subst}
use ahk_wayland.Prelude.{
  ◌==◌, ◌<◌, length, ℕ, zero, suc, ◌+◌, ◌*◌, ◌≡◌, refl, ap, ◌∙◌, false, none, some, List, [], ◌∷◌,
  ◌++◌, Text, text, get_elem?, arith, if◌then◌else◌,
}
use ahk_wayland.Key.{Key, disguised_event_offsetter, key_reserved}
use ahk_wayland.Event.{ℤ, pos, negsuc, RelativeEvent}
use ahk_wayland.Handler.OnEvent.{disguised_key}
use ahk_wayland.Handler.Relative.{is_backward}
use ahk_wayland.Ahk.SendParser.{lookup_name}
use ahk_wayland.Config.KeyNames.{KeyLibrary, key_aliases, or_reserved, unless_reserved, parse_key}

-- The axes of the kernel by their codes, from REL_X to REL_HWHEEL_HI_RES, with the names of their
-- two directions.
abbrev pub axis_names : List (Text × Text)
axis_names =
    (text "XRIGHTCURSOR", text "XLEFTCURSOR")
    ∷ (text "XDOWNCURSOR", text "XUPCURSOR")
    ∷ (text "XREL_Z_AXIS_1", text "XREL_Z_AXIS_2")
    ∷ (text "XREL_RX_AXIS_1", text "XREL_RX_AXIS_2")
    ∷ (text "XREL_RY_AXIS_1", text "XREL_RY_AXIS_2")
    ∷ (text "XREL_RZ_AXIS_1", text "XREL_RZ_AXIS_2")
    ∷ (text "XRIGHTSCROLL", text "XLEFTSCROLL")
    ∷ (text "XREL_DIAL_1", text "XREL_DIAL_2")
    ∷ (text "XUPSCROLL", text "XDOWNSCROLL")
    ∷ (text "XREL_MISC_1", text "XREL_MISC_2")
    ∷ (text "XREL_RESERVED_1", text "XREL_RESERVED_2")
    ∷ (text "XHIRES_UPSCROLL", text "XHIRES_DOWNSCROLL")
    ∷ (text "XHIRES_RIGHTSCROLL", text "XHIRES_LEFTSCROLL")
    ∷ []

abbrev pub direction_name : Text × Text → ℤ → Text
direction_name names value = if is_backward value then names.1 else names.0

-- The crate `evdev` has no key of that name, which is in upper case.
abbrev pub IsFree : KeyLibrary → Text → Type 0
IsFree lib name =
    (lib.to_uppercase name ≡ name)
    × (lib.from_str name ≡ none)
    × (lib.from_str (text "KEY_" ++ name) ≡ none)

abbrev MeansDisguise : ℕ → Text × Text → Type 0
MeansDisguise code names =
    (or_reserved (lookup_name names.0 key_aliases) ≡ disguised_event_offsetter + code * 2)
    × (or_reserved (lookup_name names.1 key_aliases) ≡ disguised_event_offsetter + code * 2 + 1)

abbrev AllFrom : ℕ → List (Text × Text) → Type 0
AllFrom i [] = Unit
AllFrom i (x ∷ xs) = MeansDisguise i x × AllFrom (suc i) xs

AllFrom-get :
    (i j : ℕ) (xs : List (Text × Text)) (x : Text × Text)
    → AllFrom i xs
    → get_elem? xs j ≡ some x
    → MeansDisguise (i + j) x
AllFrom-get i j [] x h e = absurd (cc)
AllFrom-get i zero (y ∷ xs) x h e =
    let here : i ≡ i + 0 = omega arith in
    let same : y ≡ x = cc in
    subst (λ (n : ℕ). MeansDisguise n x) here
      (subst (λ (z : Text × Text). MeansDisguise i z) same h.0)
AllFrom-get i (suc j) (y ∷ xs) x h e =
    let shift : suc i + j ≡ i + suc j = omega arith in
    subst (λ (n : ℕ). MeansDisguise n x) shift (AllFrom-get (suc i) j xs x h.1 e)

axis_names-MeansDisguise : AllFrom 0 axis_names
axis_names-MeansDisguise = (
  (refl, refl),
  (
    (refl, refl),
    (
      (refl, refl),
      (
        (refl, refl),
        (
          (refl, refl),
          (
            (refl, refl),
            (
              (refl, refl),
              (
                (refl, refl),
                ((refl, refl), ((refl, refl), ((refl, refl), ((refl, refl), ((refl, refl), tt))))),
              ),
            ),
          ),
        ),
      ),
    ),
  ),
)

get_elem?-length :
    (j : ℕ) (xs : List (Text × Text)) (x : Text × Text) → get_elem? xs j ≡ some x → j < length xs
get_elem?-length j [] x e = absurd (cc)
get_elem?-length zero (y ∷ xs) x e = omega arith
get_elem?-length (suc j) (y ∷ xs) x e = omega (arith, get_elem?-length j xs x e)

parse_key-free :
    (lib : KeyLibrary) (name : Text) (k : Key)
    → IsFree lib name
    → or_reserved (lookup_name name key_aliases) ≡ k
    → (k == key_reserved) ≡ false
    → parse_key lib name ≡ some k
unfolding parse_key
parse_key-free lib name k free e not_reserved =
    rw (free.0, free.1, free.2) (ap unless_reserved e ∙ rw not_reserved refl)

positive : (k : ℕ) → 0 < k → (k == 0) ≡ false
positive k h = ground arith

by_direction :
    (code : ℕ) (value : ℤ) (names : Text × Text)
    → code < 13
    → MeansDisguise code names
    → (or_reserved (lookup_name (direction_name names value) key_aliases)
        ≡ disguised_key (record { code = code; value = value }))
      × ((disguised_key (record { code = code; value = value }) == key_reserved) ≡ false)
unfolding disguised_key
by_direction code (pos n) names h m = (m.0 ∙ omega arith, positive _ (omega arith))
by_direction code (negsuc n) names h m = (m.1 ∙ omega arith, positive _ (omega arith))

-- The name of an axis and a direction is read as the key that an event of that axis and direction
-- is disguised as, if the crate `evdev` has no key of that name.
pub parse_key-disguised :
    (lib : KeyLibrary) (r : RelativeEvent) (names : Text × Text)
    → get_elem? axis_names r.code ≡ some names
    → IsFree lib (direction_name names r.value)
    → parse_key lib (direction_name names r.value) ≡ some (disguised_key r)
parse_key-disguised lib r names e free =
    let from_zero : 0 + r.code ≡ r.code = omega arith in
    let means =
      subst (λ (n : ℕ). MeansDisguise n names) from_zero
        (AllFrom-get 0 r.code axis_names names axis_names-MeansDisguise e) in
    let both =
      by_direction r.code r.value names (get_elem?-length r.code axis_names names e) means in
    parse_key-free lib (direction_name names r.value) (disguised_key r) free both.0 both.1
