-- ===== src/Prelude/Results.antt =====
-- `anyhow::Result`, with the error type of each component: a call that fails hands back why.
use mathlib.Core.Path.{◌≡◌, refl}
use mathlib.Core.Logic.{◌⊎◌, inl, inr}
use mathlib.Core.Bool.{Bool, true, false}

pub data Result {ℓ} (E : Type 0) (A : Type ℓ) : Type ℓ where
  ok : A → Result E A
  err : E → Result E A

-- `?` on a result, and what follows it
infixl 5 ◌>>=◌ ◌>>◌
abbrev pub ◌>>=◌ {ℓ κ} :
    {E : Type 0} {V : Type ℓ} {W : Type κ} → Result E V → (V → Result E W) → Result E W
◌>>=◌ r next = elim r [ ok value ↦ next value | err reason ↦ err reason ]

abbrev pub ◌>>◌ {κ} : {E : Type 0} {W : Type κ} → Result E (Unit {0}) → Result E W → Result E W
◌>>◌ r next = elim r [ ok done ↦ next | err reason ↦ err reason ]

-- `ensure!(test, error)`; `bail!` under a test is `ensure` of its negation.
abbrev pub ensure : {E : Type 0} → Bool → E → Result E (Unit {0})
ensure true e = ok tt
ensure false e = err e

-- Where a step and what follows it succeed, the step has a value, and what follows succeeds on it.
pub >>=-eq-ok {ℓ κ} :
    {E : Type 0} {V : Type ℓ} {W : Type κ} (r : Result E V) (next : V → Result E W) {out : W}
    → (r >>= next) ≡ ok out
    → (value : V) × (r ≡ ok value) × (next value ≡ ok out)
>>=-eq-ok (err reason) next h = cc
>>=-eq-ok (ok value) next h = (value, refl, h)

pub Result-cases {ℓ} :
    {E : Type 0} {A : Type ℓ} (m : Result E A) → ((a : A) × (m ≡ ok a)) ⊎ ((e : E) × (m ≡ err e))
Result-cases (ok a) = inl (a, refl)
Result-cases (err e) = inr (e, refl)

pub ok_injective {ℓ} :
    {E : Type 0} {A : Type ℓ} {a b : A} → ◌≡◌ {A = Result E A} (ok a) (ok b) → a ≡ b
ok_injective h = cc

-- Inversion of a guarded step.
pub ensure->>=-ok {ℓ} :
    {E : Type 0} {B : Type ℓ} (t : Bool) (e : E) (m : Result E B) {b : B}
    → (ensure t e >> m) ≡ ok b
    → (t ≡ true) × (m ≡ ok b)
ensure->>=-ok true e m h = (refl, h)
ensure->>=-ok false e m h = cc

pub ensure-ok : {E : Type 0} (t : Bool) (e : E) → ensure t e ≡ ok tt → t ≡ true
ensure-ok true e h = refl
ensure-ok false e h = cc
