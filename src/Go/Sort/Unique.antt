-- ===== src/Go/Sort/Unique.antt =====
-- A sort of items that `less` tells apart does not depend on the order in which they come.
use articleflow.Prelude.{
  false, all_pairs-perm, refl, ◌∙◌, ap, arith, true, ◌≡◌, [], sym, keep_if_neg, inr, keep_if_pos,
  inl, Bool-cases, keep_if, all_pairs, ◌||◌, Bool, ◌∷◌, List, Perm,
}
use mathlib.Core.List.{Permᴰ}
use mathlib.Core.Path.{ap₂}
use mathlib.Core.Logic.{∥∥₁_elim}
use articleflow.Go.Sort.{insert, sort_stable, IsWeakOrder}

all_same {ℓ} : {A : Type ℓ} (xs : List A) → Permᴰ xs xs
all_same [] = Permᴰ.nil
all_same (x ∷ xs) = Permᴰ.cons refl (all_same xs)

module _ {ℓ} {A : Type ℓ} (p : A → Bool) where
  keep_if-Perm : (xs ys : List A) → Permᴰ xs ys → Permᴰ (keep_if p xs) (keep_if p ys)
  keep_if-Perm _ _ Permᴰ.nil = Permᴰ.nil
  keep_if-Perm _ _ (Permᴰ.cons {a = a} {b = b} {l₁ = l₁} {l₂ = l₂} e d) =
      let rest = keep_if-Perm l₁ l₂ d in
      elim (Bool-cases (p b)) [
        | inl kept ↦ rw (e, keep_if_pos p b l₁ kept, keep_if_pos p b l₂ kept) (Permᴰ.cons refl rest)
        | inr left ↦ rw (e, keep_if_neg p b l₁ left, keep_if_neg p b l₂ left) rest
      ]
  keep_if-Perm _ _ (Permᴰ.swap {a = a} {b = b} {a' = a'} {b' = b'} {l = l} e₁ e₂) =
      rw (sym e₁, sym e₂)
        (elim (Bool-cases (p a)) [
          | inl kept ↦ elim (Bool-cases (p b)) [
            | inl kept' ↦
                rw
                  (
                    keep_if_pos p a (b ∷ l) kept,
                    keep_if_pos p b l kept',
                    keep_if_pos p b (a ∷ l) kept',
                    keep_if_pos p a l kept,
                  )
                  (Permᴰ.swap refl refl)
            | inr left' ↦
                rw
                  (
                    keep_if_pos p a (b ∷ l) kept,
                    keep_if_neg p b l left',
                    keep_if_neg p b (a ∷ l) left',
                    keep_if_pos p a l kept,
                  )
                  (all_same _)
          ]
          | inr left ↦ elim (Bool-cases (p b)) [
            | inl kept' ↦
                rw
                  (
                    keep_if_neg p a (b ∷ l) left,
                    keep_if_pos p b l kept',
                    keep_if_pos p b (a ∷ l) kept',
                    keep_if_neg p a l left,
                  )
                  (all_same _)
            | inr left' ↦
                rw
                  (
                    keep_if_neg p a (b ∷ l) left,
                    keep_if_neg p b l left',
                    keep_if_neg p b (a ∷ l) left',
                    keep_if_neg p a l left,
                  )
                  (all_same _)
          ]
        ])
  keep_if-Perm _ _ (Permᴰ.trans {l₁ = l₁} {l₂ = l₂} {l₃ = l₃} d₁ d₂) =
      Permᴰ.trans (keep_if-Perm l₁ l₂ d₁) (keep_if-Perm l₂ l₃ d₂)

module _ {ℓ} {A : Type ℓ} (less : A → A → Bool) (order : IsWeakOrder less) where
  -- One of two items comes first.
  abbrev pub apart : A → A → Bool
  apart a b = less a b || less b a

  insert_past :
      (x y : A) (ys : List A) → less y x ≡ true → insert less x (y ∷ ys) ≡ y ∷ insert less x ys
  unfolding insert
  insert_past x y ys h = rw (insert, h) refl

  insert_here : (x y : A) (ys : List A) → less y x ≡ false → insert less x (y ∷ ys) ≡ x ∷ y ∷ ys
  unfolding insert
  insert_here x y ys h = rw (insert, h) refl

  insert_last : (x : A) → insert less x [] ≡ x ∷ []
  unfolding insert
  insert_last x = refl

  -- Where `a` comes first, and is put in before or after `b`.
  insert_first :
      (a b : A) (ys : List A)
      → less a b ≡ true
      → insert less a (insert less b ys) ≡ insert less b (insert less a ys)
  insert_first a b [] h =
      rw
        (
          insert_last b,
          insert_last a,
          insert_here a b [] (order.asym a b h),
          insert_past b a [] h,
          insert_last b,
        )
        refl
  insert_first a b (y ∷ ys) h = elim (Bool-cases (less y a)) [
    | inl ya ↦
        let yb : less y b ≡ true = elim (Bool-cases (less y b)) [
          | inl first ↦ first
          | inr wrong ↦ absurd (cc (order.ntrans b y a wrong (order.asym y a ya)))
        ] in
        rw
          (
            insert_past b y ys yb,
            insert_past a y ys ya,
            insert_past a y (insert less b ys) ya,
            insert_past b y (insert less a ys) yb,
          )
          (ap (λ l. y ∷ l) (insert_first a b ys h))
    | inr ya ↦ elim (Bool-cases (less y b)) [
      | inl yb ↦
          rw
            (
              insert_past b y ys yb,
              insert_here a y ys ya,
              insert_here a y (insert less b ys) ya,
              insert_past b a (y ∷ ys) h,
              insert_past b y ys yb,
            )
            refl
      | inr yb ↦
          rw
            (
              insert_here b y ys yb,
              insert_here a y ys ya,
              insert_here a b (y ∷ ys) (order.asym a b h),
              insert_past b a (y ∷ ys) h,
              insert_here b y ys yb,
            )
            refl
    ]
  ]

  insert_comm :
      (a b : A) (ys : List A)
      → apart a b ≡ true
      → insert less a (insert less b ys) ≡ insert less b (insert less a ys)
  insert_comm a b ys h = elim (Bool-cases (less a b)) [
    | inl first ↦ insert_first a b ys first
    | inr second ↦ sym (insert_first b a ys (ground (arith, h, second)))
  ]

  sort_stable-Perm :
      (xs ys : List A)
      → Permᴰ xs ys
      → all_pairs apart xs ≡ true
      → sort_stable less xs ≡ sort_stable less ys
  unfolding sort_stable
  sort_stable-Perm _ _ Permᴰ.nil h = refl
  sort_stable-Perm _ _ (Permᴰ.cons {l₁ = l₁} {l₂ = l₂} e d) h =
      ap₂ (insert less) e (sort_stable-Perm l₁ l₂ d (ground (arith, h)))
  sort_stable-Perm _ _ (Permᴰ.swap {a = a} {b = b} {l = l} e₁ e₂) h =
      rw (sym e₁, sym e₂) (insert_comm a b (sort_stable less l) (ground (arith, h)))
  sort_stable-Perm _ _ (Permᴰ.trans {l₁ = l₁} {l₂ = l₂} {l₃ = l₃} d₁ d₂) h =
      sort_stable-Perm l₁ l₂ d₁ h
      ∙ sort_stable-Perm l₂ l₃ d₂
          (all_pairs-perm apart (λ x y e. ground (arith, e)) l₁ l₂ ∣ d₁ ∣₁ h)

  -- Two orders of the items that `p` takes are sorted alike.
  pub sort_stable-keep_if :
      (p : A → Bool) (xs ys : List A)
      → IsSet (List A)
      → Perm xs ys
      → all_pairs apart (keep_if p xs) ≡ true
      → sort_stable less (keep_if p xs) ≡ sort_stable less (keep_if p ys)
  sort_stable-keep_if p xs ys set any_order h =
      ∥∥₁_elim any_order (set _ _)
        (λ d. sort_stable-Perm (keep_if p xs) (keep_if p ys) (keep_if-Perm p xs ys d) h)
