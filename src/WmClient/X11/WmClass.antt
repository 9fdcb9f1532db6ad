-- ===== src/WmClient/X11/WmClass.antt =====
-- client/x11_client.rs, get_wm_class: the two strings of WM_CLASS.
use ahk_wayland.Prelude.{
  ℕ, suc, ◌≡◌, refl, ap, ◌∙◌, arith, Bool, false, ◌&&◌, Option, none, some, List, [], ◌∷◌, ◌++◌,
  Text, length, is_empty, ◌==◌, leb, if◌then◌else◌, contains,
}
use ahk_wayland.Handler.State.{Outcome, ok, err, panic, out_of_fuel}
use ahk_wayland.WmClient.X11.{
  Server, PropertyReply, wm_class, X11Client, get_cookie_reply_with_reconnect,
}

-- The bytes before the first NUL, and those after it; none if there is no NUL.
abbrev pub split_nul : List ℕ → Option (List ℕ × List ℕ)
split_nul [] = none
split_nul (b ∷ bs) =
    let rest = split_nul bs in
    if b == 0
    then some ([], bs)
    else elim rest [ none ↦ none | some (before, after) ↦ some (b ∷ before, after) ]

-- The bytes of the name up to its end, and how many bytes follow: the position of the first NUL, or
-- the length.
abbrev pub end_at : List ℕ → Option (List ℕ × List ℕ) → List ℕ × ℕ
end_at name none = (name, 0)
end_at name (some (before, after)) = (before, suc (length after))

abbrev pub name_end : List ℕ → List ℕ × ℕ
name_end name = end_at name (split_nul name)

abbrev pub joined : Option Text → Option Text → Option Text
joined (some prefix) (some name) = some (prefix ++ b'.' ∷ name)
joined _ _ = none

-- `end == name.len() - 1 || end == name.len()`, where a number of bytes follows the end. With no byte
-- at all the subtraction is below zero: a panic, or without the checks a number that is no position.
abbrev pub named : Server → Text → Bool → List ℕ × ℕ → Outcome (Option Text)
named x prefix no_bytes (before, following) =
    if no_bytes && x.overflow_checks
    then panic
    else if leb following 1
    then ok (joined (some prefix) (x.from_utf8 before))
    else ok none

abbrev pub class_name : Server → Text → List ℕ → Outcome (Option Text)
class_name x prefix name = named x prefix (is_empty name) (name_end name)

abbrev pub class_after : Server → List ℕ → Option Text → Outcome (Option Text)
class_after x name none = ok none
class_after x name (some prefix) = class_name x prefix name

abbrev pub class_at : Server → Option (List ℕ × List ℕ) → Outcome (Option Text)
class_at x none = ok none
class_at x (some (before, name)) = class_after x name (x.from_utf8 before)

-- The part of `get_wm_class` that reads the value.
unfoldable pub class_of : Server → List ℕ → Outcome (Option Text)
class_of x value = class_at x (split_nul value)

abbrev pub with_client : X11Client → Outcome (Option Text) → Outcome (Option Text × X11Client)
with_client c (ok o) = ok (o, c)
with_client c err = err
with_client c panic = panic
with_client c out_of_fuel = out_of_fuel

abbrev pub class_of_reply :
    Server → Option PropertyReply × X11Client → Outcome (Option Text × X11Client)
class_of_reply x (none, c) = ok (none, c)
class_of_reply x (some r, c) = with_client c (class_of x r.value)

unfoldable pub get_wm_class : Server → ℕ → X11Client → Outcome (Option Text × X11Client)
unfolding get_cookie_reply_with_reconnect
get_wm_class x w c =
    class_of_reply x (get_cookie_reply_with_reconnect x (λ n. x.property n wm_class w) c)

abbrev pub HasNoNul : List ℕ → Type 0
HasNoNul bs = contains bs 0 ≡ false

-- Bytes that end with the text, or with one NUL or more bytes after it.
abbrev pub ended : List ℕ → Option (List ℕ) → List ℕ
ended name none = name
ended name (some more) = name ++ 0 ∷ more

split_nul-none : (bs : List ℕ) → HasNoNul bs → split_nul bs ≡ none
split_nul-none [] h = refl
split_nul-none (b ∷ bs) h = ground (arith, split_nul-none bs)

split_nul-first : (bs more : List ℕ) → HasNoNul bs → split_nul (bs ++ 0 ∷ more) ≡ some (bs, more)
split_nul-first [] more h = refl
split_nul-first (b ∷ bs) more h = ground (arith, split_nul-first bs more)

-- What the value means: the instance, and the class with what follows it.
abbrev pub strings : Server → Text → List ℕ → Option (List ℕ) → Outcome (Option Text)
strings x prefix [] none =
    if x.overflow_checks then panic else ok (joined (some prefix) (x.from_utf8 []))
strings x prefix name none = ok (joined (some prefix) (x.from_utf8 name))
strings x prefix name (some []) = ok (joined (some prefix) (x.from_utf8 name))
strings x prefix name (some (b ∷ more)) = ok none

abbrev pub read_strings : Server → List ℕ → Option (List ℕ) → Option Text → Outcome (Option Text)
read_strings x name more none = ok none
read_strings x name more (some prefix) = strings x prefix name more

abbrev after_name : Option (List ℕ) → ℕ
after_name none = 0
after_name (some more) = suc (length more)

name_end-ended :
    (name : List ℕ) (more : Option (List ℕ))
    → HasNoNul name
    → name_end (ended name more) ≡ (name, after_name more)
name_end-ended name none h = ap (end_at name) (split_nul-none name h)
name_end-ended name (some more) h = ap (end_at (name ++ 0 ∷ more)) (split_nul-first name more h)

named-strings :
    (x : Server) (prefix : Text) (name : List ℕ) (more : Option (List ℕ))
    → named x prefix (is_empty (ended name more)) (name, after_name more)
      ≡ strings x prefix name more
named-strings x prefix [] none = refl
named-strings x prefix (b ∷ name) none = refl
named-strings x prefix [] (some []) = refl
named-strings x prefix [] (some (c ∷ more)) = ground arith
named-strings x prefix (b ∷ name) (some []) = refl
named-strings x prefix (b ∷ name) (some (c ∷ more)) = ground arith

class_name-strings :
    (x : Server) (prefix : Text) (name : List ℕ) (more : Option (List ℕ))
    → HasNoNul name
    → class_name x prefix (ended name more) ≡ strings x prefix name more
class_name-strings x prefix name more h =
    ap (named x prefix (is_empty (ended name more))) (name_end-ended name more h)
    ∙ named-strings x prefix name more

class_after-read_strings :
    (x : Server) (name : List ℕ) (more : Option (List ℕ)) (prefix : Option Text)
    → HasNoNul name
    → class_after x (ended name more) prefix ≡ read_strings x name more prefix
class_after-read_strings x name more none h = refl
class_after-read_strings x name more (some prefix) h = class_name-strings x prefix name more h

-- A value with a NUL in it is an instance, a NUL and a class, which is all of the rest or ends at a
-- second NUL. If nothing follows that NUL, the answer is instance.class, or none if one of the two is
-- not UTF-8; if more follows, it is none. If nothing at all follows the first NUL, the subtraction
-- panics in a build with overflow checks.
pub class_of-strings :
    (x : Server) (instance_name name : List ℕ) (more : Option (List ℕ))
    → HasNoNul instance_name
    → HasNoNul name
    → class_of x (instance_name ++ 0 ∷ ended name more)
      ≡ read_strings x name more (x.from_utf8 instance_name)
unfolding class_of
class_of-strings x i name more hi hn =
    ap (class_at x) (split_nul-first i (ended name more) hi)
    ∙ class_after-read_strings x name more (x.from_utf8 i) hn
