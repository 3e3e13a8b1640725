-- ===== src/Go/Float.antt =====
-- float64, which antt does not have: the type and the operations are an argument. What the program
-- relies on is the order of the numbers that are not NaN.
use articleflow.Prelude.{◌↔◌, false, true, ◌≡◌, Bool}
use articleflow.Prelude.Int.{ℤ}

pub record Float64 : Type 1 where
  pub Float : Type 0
  pub of_int : ℤ → Float
  pub add : Float → Float → Float
  pub div : Float → Float → Float
  pub less : Float → Float → Bool
  pub equal : Float → Float → Bool

-- The documented behaviour of `<` and `==` on numbers.
pub record IsOrdered (f : Float64) : Type 0 where
  pub asym : (a b : f.Float) → f.less a b ≡ true → f.less b a ≡ false
  pub ntrans : (a b c : f.Float) → f.less b a ≡ false → f.less c b ≡ false → f.less c a ≡ false
  pub equal_iff :
      (a b : f.Float) → (f.equal a b ≡ true) ↔ ((f.less a b ≡ false) × (f.less b a ≡ false))
