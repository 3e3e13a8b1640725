-- ===== src/Go/Result.antt =====
-- A result or an `error`, which is its text.
use articleflow.Prelude.{refl, inr, inl, ◌⊎◌, ◌≡◌, String, Bool, true, false}

pub data Result {ℓ} (A : Type ℓ) : Type ℓ where
  ok : A → Result A
  err : String → Result A

-- `if err != nil { return err }`, where the call has no other result.
infixl 5 ◌>>◌
abbrev pub ◌>>◌ {ℓ} : {B : Type ℓ} → Result (Unit {0}) → Result B → Result B
ok done >> rest = rest
err message >> rest = err message

-- The same where the call has a result.
infixl 5 ◌>>=◌
abbrev pub ◌>>=◌ {ℓ κ} : {A : Type ℓ} {B : Type κ} → Result A → (A → Result B) → Result B
ok value >>= rest = rest value
err message >>= rest = err message

-- `if bad { return errors.New(e) }`
abbrev pub reject_if : Bool → String → Result (Unit {0})
reject_if true e = err e
reject_if false e = ok tt

pub Result-cases {ℓ} :
    {A : Type ℓ} (r : Result A) → ((a : A) × (r ≡ ok a)) ⊎ ((message : String) × (r ≡ err message))
Result-cases (ok a) = inl (a, refl)
Result-cases (err message) = inr (message, refl)
