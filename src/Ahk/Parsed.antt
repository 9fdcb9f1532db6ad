-- ===== src/Ahk/Parsed.antt =====
-- ahk/parser.rs: how its functions end. A `Result` whose error is a message: the message is left out.
use ahk_wayland.Prelude.{Option, none, some}

pub data Parsed {ℓ} (A : Type ℓ) : Type ℓ where
  ok : A → Parsed A
  err : Parsed A
  out_of_fuel : Parsed A

infixl 5 ◌>>=◌
abbrev pub ◌>>=◌ {ℓ κ} : {A : Type ℓ} {B : Type κ} → Parsed A → (A → Parsed B) → Parsed B
ok a >>= f = f a
err >>= f = err
out_of_fuel >>= f = out_of_fuel

-- `ok_or_else`
abbrev pub ok_or_err {ℓ} : {A : Type ℓ} → Option A → Parsed A
ok_or_err none = err
ok_or_err (some a) = ok a

-- The fuel was enough, and a result has the property.
abbrev pub Ensures {ℓ} : {A : Type ℓ} → (A → Type 0) → Parsed A → Type 0
Ensures P (ok a) = P a
Ensures P err = Unit
Ensures P out_of_fuel = ⊥

pub Ensures-bind {ℓ κ} :
    {A : Type ℓ} {B : Type κ} (P : A → Type 0) (Q : B → Type 0) (m : Parsed A) (f : A → Parsed B)
    → Ensures P m
    → ((a : A) → P a → Ensures Q (f a))
    → Ensures Q (m >>= f)
Ensures-bind P Q (ok a) f h k = k a h
Ensures-bind P Q err f h k = tt
Ensures-bind P Q out_of_fuel f h k = h

pub Ensures-mono {ℓ} :
    {A : Type ℓ} (P Q : A → Type 0) (m : Parsed A)
    → ((a : A) → P a → Q a)
    → Ensures P m
    → Ensures Q m
Ensures-mono P Q (ok a) k h = k a h
Ensures-mono P Q err k h = tt
Ensures-mono P Q out_of_fuel k h = h

abbrev pub HasFuel {ℓ} : {A : Type ℓ} → Parsed A → Type 0
HasFuel = Ensures (λ a. Unit)
