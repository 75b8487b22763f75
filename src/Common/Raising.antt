-- ===== src/Common/Raising.antt =====
-- A computation that returns a value or raises an exception of type `E`.
use mathlib.Core.Path.{◌≡◌, refl, ap}
use mathlib.Core.Logic.{◌⊎◌, inl, inr}

pub data Result {ℓ} (E : Type 0) (A : Type ℓ) : Type ℓ where
  raise : E → Result E A
  ok : A → Result E A

-- The rest of a computation runs on the value, if there is one.
infixl 5 ◌>>=◌
abbrev pub ◌>>=◌ {κ ℓ} :
    {B : Type κ} {E : Type 0} {A : Type ℓ} → Result E A → (A → Result E B) → Result E B
raise error >>= rest = raise error
ok value >>= rest = rest value

-- What a successful sequence did.
pub >>=-eq-ok {ℓ κ} :
    {B : Type κ} {E : Type 0} {A : Type ℓ} (first : Result E A) (rest : A → Result E B) {b : B}
    → (first >>= rest) ≡ ok b
    → (value : A) × (first ≡ ok value) × (rest value ≡ ok b)
>>=-eq-ok (raise error) rest h = cc
>>=-eq-ok (ok value) rest h = (value, refl, h)

value_or {ℓ} : {E : Type 0} {A : Type ℓ} → A → Result E A → A
value_or d (ok b) = b
value_or d (raise e) = d

pub ok_injective {ℓ} :
    {E : Type 0} {A : Type ℓ} {a b : A} → ◌≡◌ {A = Result E A} (ok a) (ok b) → a ≡ b
unfolding value_or
ok_injective {a} h = ap (value_or a) h

pub Result-cases {ℓ} :
    {E : Type 0} {A : Type ℓ} (r : Result E A) → ((e : E) × (r ≡ raise e)) ⊎ ((a : A) × (r ≡ ok a))
Result-cases (raise e) = inl (e, refl)
Result-cases (ok a) = inr (a, refl)
