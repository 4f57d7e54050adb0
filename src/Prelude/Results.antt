-- ===== src/Prelude/Results.antt =====
-- `Result`: a value or an error, and the operator `?`.
use mathlib.Core.Path.{◌≡◌, refl, subst}
use mathlib.Core.Bool.{Bool, true, false}
use mathlib.Core.Option.{Option, none, some}
use trimrouter.Prelude.Tests.{if◌then◌else◌}

pub data Result {ℓ κ} (E : Type ℓ) (A : Type κ) : Type (ℓ ⊔ κ) where
  ok : A → Result E A
  err : E → Result E A

module _ {ℓ κ μ} {E : Type ℓ} {A : Type κ} {B : Type μ} where
  -- `r?`, and then what follows it.
  unfoldable pub and_then : Result E A → (A → Result E B) → Result E B
  and_then (ok a) k = k a
  and_then (err e) k = err e

module _ {ℓ κ} {E : Type ℓ} {A : Type κ} where
  -- `ok_or_else`, `map_err`
  unfoldable pub ok_or : Option A → E → Result E A
  ok_or none e = err e
  ok_or (some a) e = ok a

  pub ok_or-ok : (o : Option A) (e : E) (a : A) → ok_or o e ≡ ok a → o ≡ some a
  unfolding ok_or
  ok_or-ok none e a h = cc
  ok_or-ok (some b) e a h = cc

  -- `if b { return Err(e) }`, and then what follows it.
  unfoldable pub refuse_if : Bool → E → Result E A → Result E A
  refuse_if b e r = if b then err e else r

  -- What holds of a result that is there.
  abbrev pub Holds {μ} : (A → Type μ) → Result E A → Type μ
  Holds P (ok a) = P a
  Holds P (err e) = Unit {μ}

  pub Holds-ok {μ} : (P : A → Type μ) (r : Result E A) (a : A) → r ≡ ok a → Holds P r → P a
  Holds-ok P r a e h = subst (Holds P) e h

  pub Holds-refuse_if {μ} :
      (P : A → Type μ) (b : Bool) (e : E) (r : Result E A)
      → (b ≡ false → Holds P r)
      → Holds P (refuse_if b e r)
  unfolding refuse_if
  Holds-refuse_if P true e r h = tt
  Holds-refuse_if P false e r h = h refl

module _ {ℓ κ μ ν} {E : Type ℓ} {A : Type κ} {B : Type μ} where
  pub Holds-and_then :
      (P : B → Type ν) (r : Result E A) (k : A → Result E B)
      → ((a : A) → r ≡ ok a → Holds P (k a))
      → Holds P (and_then r k)
  unfolding and_then
  Holds-and_then P (ok a) k h = h a refl
  Holds-and_then P (err e) k h = tt

  -- After a step of which a property is known.
  pub Holds-after :
      (Q : A → Type ν) (P : B → Type ν) (r : Result E A) (k : A → Result E B)
      → Holds Q r
      → ((a : A) → Q a → Holds P (k a))
      → Holds P (and_then r k)
  unfolding and_then
  Holds-after Q P (ok a) k q h = h a q
  Holds-after Q P (err e) k q h = tt
