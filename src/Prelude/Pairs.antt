-- ===== src/Prelude/Pairs.antt =====
-- Tests on all items and on any two items of a list, whatever their order.
use Prim.Native.Nat.{ℕ, zero, suc}
use mathlib.Core.Path.{◌≡◌, refl}
use mathlib.Core.Bool.{Bool, true, ◌&&◌, Bool-set}
use mathlib.Core.List.{List, [], ◌∷◌, ◌++◌, Perm}
use mathlib.Core.List.{
  Mem, mem-cons_self, mem-cons_of_mem, not-mem-nil, eq-or-mem_of_mem-cons, Pairwise,
  rel_of_Pairwise-cons,
}
use mathlib.Core.List.Perm
use mathlib.Core.List.Pairwise
use mathlib.Core.Logic.Or
use native.Mathlib.Omega.{arith}
use articleflow.Prelude.Lists.{take}

module _ {ℓ} {A : Type ℓ} where
  abbrev pub every : (A → Bool) → List A → Bool
  every p [] = true
  every p (x ∷ xs) = p x && every p xs

  abbrev pub all_pairs : (A → A → Bool) → List A → Bool
  all_pairs r [] = true
  all_pairs r (x ∷ xs) = every (r x) xs && all_pairs r xs

  every-take : (p : A → Bool) (n : ℕ) (xs : List A) → every p xs ≡ true → every p (take n xs) ≡ true
  every-take p zero xs h = refl
  every-take p (suc n) [] h = refl
  every-take p (suc n) (x ∷ xs) h = ground (arith, every-take p n xs)

  pub all_pairs-take :
      (r : A → A → Bool) (n : ℕ) (xs : List A)
      → all_pairs r xs ≡ true
      → all_pairs r (take n xs) ≡ true
  all_pairs-take r zero xs h = refl
  all_pairs-take r (suc n) [] h = refl
  all_pairs-take r (suc n) (x ∷ xs) h = ground (arith, every-take (r x) n xs, all_pairs-take r n xs)

  pub every-mem : (p : A → Bool) (x : A) (xs : List A) → every p xs ≡ true → Mem x xs → p x ≡ true
  every-mem p x [] h m = absurd (not-mem-nil m)
  every-mem p x (y ∷ ys) h m =
      Or.elim (Bool-set (p x) true) (eq-or-mem_of_mem-cons m)
        (λ same. let here : p y ≡ true = ground arith in rw same here)
        (λ later. every-mem p x ys (ground arith) later)

  pub mem-every :
      (p : A → Bool) (xs : List A) → ((x : A) → Mem x xs → p x ≡ true) → every p xs ≡ true
  mem-every p [] h = refl
  mem-every p (y ∷ ys) h =
      let here = h y mem-cons_self in
      let rest = mem-every p ys (λ x m. h x (mem-cons_of_mem y m)) in ground (arith, here, rest)

  pub every-perm :
      (p : A → Bool) (xs ys : List A) → Perm xs ys → every p xs ≡ true → every p ys ≡ true
  every-perm p xs ys d h = mem-every p ys (λ x m. every-mem p x xs h ((Perm.mem_iff d).1 m))

  module _ (r : A → A → Bool) where
    abbrev Related : A → A → Type 0
    Related x y = (r x y ≡ true)

    all_pairs-Pairwise : (xs : List A) → all_pairs r xs ≡ true → Pairwise Related xs
    all_pairs-Pairwise [] h = Pairwise.nil
    all_pairs-Pairwise (x ∷ xs) h =
        Pairwise.cons (λ y m. every-mem (r x) y xs (ground arith) m)
          (all_pairs-Pairwise xs (ground arith))

    Pairwise-all_pairs : (xs : List A) → Pairwise Related xs → all_pairs r xs ≡ true
    Pairwise-all_pairs [] h = refl
    Pairwise-all_pairs (x ∷ xs) h =
        let first = mem-every (r x) xs (λ y m. rel_of_Pairwise-cons h m) in
        let rest = Pairwise-all_pairs xs (Pairwise.of_cons h) in ground (arith, first, rest)

    pub all_pairs-perm :
        ((x y : A) → r x y ≡ true → r y x ≡ true)
        → (xs ys : List A) → Perm xs ys
        → all_pairs r xs ≡ true
        → all_pairs r ys ≡ true
    all_pairs-perm flip xs ys d h = Pairwise-all_pairs ys (
        Perm.pairwise {R = Related} (λ x y. Bool-set (r x y) true) flip d (all_pairs-Pairwise xs h))

  pub every-append :
      (p : A → Bool) (xs ys : List A) → every p (xs ++ ys) ≡ (every p xs && every p ys)
  every-append p [] ys = refl
  every-append p (x ∷ xs) ys = ground (arith, every-append p xs ys)

  -- What is left out does not matter.
  pub all_pairs-suffix :
      (r : A → A → Bool) (xs ys : List A) → all_pairs r (xs ++ ys) ≡ true → all_pairs r ys ≡ true
  all_pairs-suffix r [] ys h = h
  all_pairs-suffix r (x ∷ xs) ys h = ground (arith, all_pairs-suffix r xs ys)
