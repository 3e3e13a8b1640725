-- ===== src/RoundRobin/Members.antt =====
-- What holds of all items of the buckets holds of all that the rounds take.
use articleflow.Prelude.{
  subst, ◌≡◌, ℕ, zero, suc, List, [], ◌∷◌, some, All, All-append, All-take, get_elem?, inl, inr,
  Option-cases,
}
use articleflow.RoundRobin.{pick, rounds_limited}
use articleflow.RoundRobin.Columns.{columns}
use articleflow.RoundRobin.Limited.{rounds_limited-columns}

module _ {ℓ κ} {A : Type ℓ} (P : A → Type κ) where
  All-get_elem : (i : ℕ) (xs : List A) (x : A) → All P xs → get_elem? xs i ≡ some x → P x
  All-get_elem i [] x h e = cc
  All-get_elem zero (y ∷ ys) x (p, h) e = let same : y ≡ x = cc in subst P same p
  All-get_elem (suc i) (y ∷ ys) x (p, h) e = All-get_elem i ys x h e

  All-pick : (i : ℕ) (bs : List (List A)) → All (All P) bs → All P (pick i bs)
  unfolding pick
  All-pick i [] h = tt
  All-pick i (b ∷ bs) (p, h) = elim (Option-cases (get_elem? b i)) [
    | inl e ↦ rw (pick, e) (All-pick i bs h)
    | inr (x, e) ↦ rw (pick, e) (All-get_elem i b x p e, All-pick i bs h)
  ]

  All-columns : (n i : ℕ) (bs : List (List A)) → All (All P) bs → All P (columns n i bs)
  unfolding columns
  All-columns zero i bs h = tt
  All-columns (suc n) i bs h =
      All-append P (pick i bs) (columns n (suc i) bs) (All-pick i bs h) (All-columns n (suc i) bs h)

  pub All-rounds_limited :
      (fuel limit : ℕ) (bs : List (List A))
      → All (All P) bs
      → All P (rounds_limited fuel limit 0 bs [])
  All-rounds_limited fuel limit bs h =
      rw (rounds_limited-columns fuel limit bs)
        (All-take P limit (columns fuel 0 bs) (All-columns fuel 0 bs h))
