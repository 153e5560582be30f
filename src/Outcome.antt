-- ===== src/Outcome.antt =====
-- How a call ends. The code reports most failures by a failed `assert` or by `abort()`, and an
-- index past the end of a vector is undefined behaviour. Asserts are on, as in the debug build that
-- the tests run.
use iuring.Prelude.{◌⊎◌, inl, inr, ℕ, Bool, true, false, ◌≡◌, refl}

pub data Outcome {ℓ} (A : Type ℓ) : Type ℓ where
  done : A → Outcome A
  aborted : Outcome A
  undefined : Outcome A

infixl 5 ◌>>=◌ ◌>>◌
abbrev pub ◌>>=◌ {ℓ κ} : {A : Type ℓ} {B : Type κ} → Outcome A → (A → Outcome B) → Outcome B
done a >>= f = f a
aborted >>= f = aborted
undefined >>= f = undefined

abbrev pub ◌>>◌ {ℓ} : {B : Type ℓ} → Outcome (Unit {0}) → Outcome B → Outcome B
m >> k = m >>= λ _. k

-- `assert(b)`.
abbrev pub assert : Bool → Outcome (Unit {0})
assert true = done tt
assert false = aborted

pub done-injective {ℓ} : {A : Type ℓ} (a b : A) → done a ≡ done b → a ≡ b
done-injective a b e = cc

pub Outcome-cases {ℓ} :
    {A : Type ℓ} (o : Outcome A) → ((a : A) × (o ≡ done a)) ⊎ ((o ≡ aborted) ⊎ (o ≡ undefined))
Outcome-cases (done a) = inl (a, refl)
Outcome-cases aborted = inr (inl refl)
Outcome-cases undefined = inr (inr refl)

-- Inversion of a chain that ends well.
pub >>=-eq-done {ℓ κ} :
    {A : Type ℓ} {B : Type κ} (m : Outcome A) (f : A → Outcome B) {b : B}
    → (m >>= f) ≡ done b
    → (a : A) × (m ≡ done a) × (f a ≡ done b)
>>=-eq-done (done a) f h = (a, refl, h)
>>=-eq-done aborted f h = cc
>>=-eq-done undefined f h = cc

-- slogger's `error::Error`: the values that the code names, and any other by a number.
pub data Error : Type 0 where
  ok mmap_failed hostname_resolve_failed : Error
  other : ℕ → Error

-- `std::expected<A, error::Error>`.
pub data Expected {ℓ} (A : Type ℓ) : Type ℓ where
  value : A → Expected A
  unexpected : Error → Expected A
