-- ===== src/RoundRobin/Columns.antt =====
-- The rounds read the buckets by columns and lose nothing.
use mathlib.Core.List.{append_assoc, append-nil, perm_middle}
use mathlib.Core.List.Perm
use articleflow.Prelude.{
  refl, length-perm, ap, ltb, ◌∙◌, List-cases, length-append, Bool-cases, arith, length-zero, sym,
  ◌≤◌, ◌+◌, append-eq-nil, length, some, inr, ◌⊎◌, inl, none, ◌≡◌, ◌++◌, drop, Perm, ℕ, zero, suc,
  List, [], ◌∷◌, get_elem?,
}
use articleflow.RoundRobin.{pick, rounds}

module _ {ℓ} {A : Type ℓ} where
  -- What the rounds from `index` on still have to take.
  abbrev pub leftover : ℕ → List (List A) → List A
  leftover index [] = []
  leftover index (bucket ∷ buckets) = drop index bucket ++ leftover index buckets

  -- The reference: all columns from `index` on, one after the other.
  unfoldable pub columns : ℕ → ℕ → List (List A) → List A
  columns zero index buckets = []
  columns (suc n) index buckets = pick index buckets ++ columns n (suc index) buckets

  pub drop-cases :
      (i : ℕ) (b : List A)
      → ((get_elem? b i ≡ none) × (drop i b ≡ []) × (drop (suc i) b ≡ []))
        ⊎ ((x : A) × (get_elem? b i ≡ some x) × (drop i b ≡ x ∷ drop (suc i) b))
  drop-cases zero [] = inl (refl, refl, refl)
  drop-cases (suc i) [] = inl (refl, refl, refl)
  drop-cases zero (x ∷ b) = inr (x, refl, refl)
  drop-cases (suc i) (x ∷ b) = drop-cases i b

  pub swap_front : (xs ys zs : List A) → Perm (xs ++ (ys ++ zs)) (ys ++ (xs ++ zs))
  swap_front [] ys zs = Perm.refl _
  swap_front (x ∷ xs) ys zs =
      Perm.trans (Perm.cons x (swap_front xs ys zs)) (Perm.symm (perm_middle ys (xs ++ zs)))

  pub pick-leftover :
      (i : ℕ) (bs : List (List A)) → Perm (pick i bs ++ leftover (suc i) bs) (leftover i bs)
  unfolding pick
  pick-leftover i [] = Perm.refl _
  pick-leftover i (b ∷ bs) = elim (drop-cases i b) [
    | inl (e, d, d') ↦ rw (e, pick, d, d') (pick-leftover i bs)
    | inr (x, e, d) ↦
        rw (e, pick, d)
          (Perm.cons x (
            Perm.trans (swap_front (pick i bs) (drop (suc i) b) (leftover (suc i) bs))
              (Perm.append_left (drop (suc i) b) (pick-leftover i bs))))
  ]

  pub pick-nil : (i : ℕ) (bs : List (List A)) → pick i bs ≡ [] → leftover i bs ≡ []
  unfolding pick
  pick-nil i [] h = refl
  pick-nil i (b ∷ bs) h = elim (drop-cases i b) [
    | inl (e, d, d') ↦ rw d (pick-nil i bs (rw (e, pick) at h))
    | inr (x, e, d) ↦ cc (rw (e, pick) at h)
  ]

  pub leftover-suc : (i : ℕ) (bs : List (List A)) → leftover i bs ≡ [] → leftover (suc i) bs ≡ []
  leftover-suc i bs h =
      (append-eq-nil (pick i bs) (leftover (suc i) bs)
        (Perm.eq-nil (rw h at (pick-leftover i bs)))).1

  pub columns-nil : (n i : ℕ) (bs : List (List A)) → leftover i bs ≡ [] → columns n i bs ≡ []
  unfolding columns
  columns-nil zero i bs h = refl
  columns-nil (suc n) i bs h =
      let (p, l) =
        append-eq-nil (pick i bs) (leftover (suc i) bs)
          (Perm.eq-nil (rw h at (pick-leftover i bs))) in
      rw p (columns-nil n (suc i) bs l)

  length-pick :
      (i : ℕ) (bs : List (List A))
      → length (pick i bs) + length (leftover (suc i) bs) ≡ length (leftover i bs)
  length-pick i bs =
      sym (length-append (pick i bs) (leftover (suc i) bs)) ∙ length-perm (pick-leftover i bs)

  -- Neither early exit leaves anything out.
  pub rounds-columns :
      (fuel i : ℕ) (bs : List (List A)) (total : ℕ) (result : List A)
      → length result + length (leftover i bs) ≡ total
      → rounds fuel i bs total result ≡ result ++ columns fuel i bs
  unfolding rounds columns
  rounds-columns zero i bs total result h = sym (append-nil result)
  rounds-columns (suc fuel) i bs total result h = elim (Bool-cases (ltb (length result) total)) [
    | inr full ↦
        let done : leftover i bs ≡ [] = length-zero _ (ground arith) in
        rw (full, columns-nil (suc fuel) i bs done) (sym (append-nil result))
    | inl more ↦ elim (List-cases (pick i bs)) [
      | inl e ↦
          let done : leftover i bs ≡ [] = pick-nil i bs e in
          rw (more, e, columns-nil fuel (suc i) bs (leftover-suc i bs done))
            (sym (append-nil result))
      | inr (x, xs, e) ↦
          rw (more, e)
            (rounds-columns fuel (suc i) bs total (result ++ pick i bs)
                (omega (arith, length-pick i bs, length-append result (pick i bs)))
              ∙ append_assoc result (pick i bs) (columns fuel (suc i) bs)
              ∙ ap (λ added. result ++ (added ++ columns fuel (suc i) bs)) e)
    ]
  ]

  pub columns-perm :
      (n i : ℕ) (bs : List (List A))
      → length (leftover i bs) ≤ n
      → Perm (columns n i bs) (leftover i bs)
  unfolding columns
  columns-perm zero i bs h = rw (length-zero (leftover i bs) (omega arith)) (Perm.refl _)
  columns-perm (suc n) i bs h = elim (List-cases (pick i bs)) [
    | inl e ↦ rw (pick-nil i bs e, columns-nil (suc n) i bs (pick-nil i bs e)) (Perm.refl _)
    | inr (x, xs, e) ↦
        Perm.trans
          (Perm.append_left (pick i bs)
            (columns-perm n (suc i) bs (omega (arith, length-pick i bs, ap length e))))
          (pick-leftover i bs)
  ]
