-- ===== src/Prelude/Results.antt =====
-- What a call of Python returns: a value, or the exception that it raises.
use mathlib.Core.Path.{◌≡◌, refl}
use mathlib.Core.Option.{Option, none, some}

pub data Result {ℓ} (E : Type ℓ) (A : Type ℓ) : Type ℓ where
  ok : A → Result E A
  err : E → Result E A

infixl 5 ◌>>=◌
abbrev pub ◌>>=◌ {ℓ} : {E V W : Type ℓ} → Result E V → (V → Result E W) → Result E W
err e >>= rest = err e
ok v >>= rest = rest v

abbrev pub ok_or {ℓ} : {E A : Type ℓ} → Option A → E → Result E A
ok_or none e = err e
ok_or (some a) e = ok a

-- A chain returns only if its first step returns and the rest returns from there.
module _ {ℓ} {E V W : Type ℓ} where
  pub >>=-eq-ok :
      (first : Result E V) (rest : V → Result E W) {w : W}
      → (first >>= rest) ≡ ok w
      → (v : V) × (first ≡ ok v) × (rest v ≡ ok w)
  >>=-eq-ok (err e) rest h = cc
  >>=-eq-ok (ok v) rest h = (v, refl, h)
