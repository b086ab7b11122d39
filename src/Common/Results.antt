-- ===== src/Common/Results.antt =====
-- `Result`, the chain of steps that stops at an error, and the conversions that the program calls.
use mathlib.Core.Path.{◌≡◌, refl}
use mathlib.Core.Logic.{◌⊎◌, inl, inr}
use mathlib.Core.Option.{Option, none, some}

pub data Result {ℓ κ} (E : Type ℓ) (T : Type κ) : Type (ℓ ⊔ κ) where
  err : E → Result E T
  ok : T → Result E T

-- A result is one or the other.
pub Result-cases {ℓ κ} :
    {E : Type ℓ} {T : Type κ} (r : Result E T) → ((t : T) × (r ≡ ok t)) ⊎ ((e : E) × (r ≡ err e))
Result-cases (err e) = inr (e, refl)
Result-cases (ok t) = inl (t, refl)

-- `map_err`
abbrev pub map_err {ℓ κ μ} :
    {E : Type ℓ} {F : Type κ} {T : Type μ} → (E → F) → Result E T → Result F T
map_err change (err e) = err (change e)
map_err change (ok t) = ok t

-- `ok_or`
abbrev pub ok_or {ℓ κ} : {E : Type ℓ} {T : Type κ} → E → Option T → Result E T
ok_or e (some t) = ok t
ok_or e none = err e

-- `?`
infixl 5 ◌>>=◌
abbrev pub ◌>>=◌ {ℓ κ μ} :
    {E : Type ℓ} {S : Type κ} {T : Type μ} → Result E S → (S → Result E T) → Result E T
err e >>= next = err e
ok s >>= next = next s
