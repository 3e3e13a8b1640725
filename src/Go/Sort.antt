-- ===== src/Go/Sort.antt =====
-- sort.SliceStable: an insertion sort, which gives the one stable result wherever `less` is a weak
-- order.
pub mod Unique
use mathlib.Core.List.Perm
use articleflow.Prelude.{
  All-keep_if, refl, ap, ◌∙◌, keep_if, ◌≡◌, Bool, true, false, List, [], ◌∷◌, Perm, All, inl, inr,
  Bool-cases,
}

module _ {ℓ} {A : Type ℓ} (less : A → A → Bool) where
  unfoldable pub insert : A → List A → List A
  insert x [] = x ∷ []
  insert x (y ∷ ys) = elim (less y x) [ true ↦ y ∷ insert x ys | false ↦ x ∷ y ∷ ys ]

  unfoldable pub sort_stable : List A → List A
  unfolding insert
  sort_stable [] = []
  sort_stable (x ∷ xs) = insert x (sort_stable xs)

  pub record IsWeakOrder : Type ℓ where
    pub asym : (a b : A) → less a b ≡ true → less b a ≡ false
    pub ntrans : (a b c : A) → less b a ≡ false → less c b ≡ false → less c a ≡ false

  -- No item comes after one that it is less than.
  abbrev pub Sorted : List A → Type ℓ
  Sorted [] = Unit
  Sorted (x ∷ xs) = All (λ y. less y x ≡ false) xs × Sorted xs

  insert-perm : (x : A) (ys : List A) → Perm (insert x ys) (x ∷ ys)
  unfolding insert
  insert-perm x [] = Perm.refl _
  insert-perm x (y ∷ ys) = elim (Bool-cases (less y x)) [
    | inl e ↦ rw (e, insert) (Perm.trans (Perm.cons y (insert-perm x ys)) (Perm.swap x y ys))
    | inr e ↦ rw (e, insert) (Perm.refl _)
  ]

  pub sort_stable-perm : (xs : List A) → Perm (sort_stable xs) xs
  unfolding sort_stable
  sort_stable-perm [] = Perm.refl _
  sort_stable-perm (x ∷ xs) =
      Perm.trans (insert-perm x (sort_stable xs)) (Perm.cons x (sort_stable-perm xs))

  insert-All {κ} : (P : A → Type κ) (x : A) (ys : List A) → P x → All P ys → All P (insert x ys)
  unfolding insert
  insert-All P x [] p h = (p, tt)
  insert-All P x (y ∷ ys) p (q, h) = elim (Bool-cases (less y x)) [
    | inl e ↦ rw (e, insert) (q, insert-All P x ys p h)
    | inr e ↦ rw (e, insert) (p, (q, h))
  ]

  pub sort_stable-All {κ} : (P : A → Type κ) (xs : List A) → All P xs → All P (sort_stable xs)
  unfolding sort_stable
  sort_stable-All P [] h = tt
  sort_stable-All P (x ∷ xs) (p, h) = insert-All P x (sort_stable xs) p (sort_stable-All P xs h)

  module _ (order : IsWeakOrder) where
    above :
        (x y : A) (ys : List A)
        → less y x ≡ false
        → All (λ z. less z y ≡ false) ys
        → All (λ z. less z x ≡ false) ys
    above x y [] h k = tt
    above x y (z ∷ zs) h (k, ks) = (order.ntrans x y z h k, above x y zs h ks)

    insert-Sorted : (x : A) (ys : List A) → Sorted ys → Sorted (insert x ys)
    unfolding insert
    insert-Sorted x [] h = (tt, tt)
    insert-Sorted x (y ∷ ys) (h, hs) = elim (Bool-cases (less y x)) [
      | inl e ↦
          rw (e, insert)
            (insert-All (λ z. less z y ≡ false) x ys (order.asym y x e) h, insert-Sorted x ys hs)
      | inr e ↦ rw (e, insert) ((e, above x y ys e h), (h, hs))
    ]

    pub sort_stable-Sorted : (xs : List A) → Sorted (sort_stable xs)
    unfolding sort_stable
    sort_stable-Sorted [] = tt
    sort_stable-Sorted (x ∷ xs) = insert-Sorted x (sort_stable xs) (sort_stable-Sorted xs)

  -- Items that `less` does not order keep their places among each other.
  module _ (p : A → Bool) (tied : (x y : A) → p x ≡ true → p y ≡ true → less x y ≡ false) where
    keep_if-insert_skip :
        (x : A) (ys : List A) → p x ≡ false → keep_if p (insert x ys) ≡ keep_if p ys
    unfolding insert
    keep_if-insert_skip x [] h = rw h
    keep_if-insert_skip x (y ∷ ys) h = elim (Bool-cases (less y x)) [
      | inl e ↦
          rw (e, insert)
            (elim (Bool-cases (p y)) [
              | inl q ↦ rw (q, keep_if) (ap (◌∷◌ y) (keep_if-insert_skip x ys h))
              | inr q ↦ rw (q, keep_if) (keep_if-insert_skip x ys h)
            ])
      | inr e ↦ rw (e, insert, h, keep_if)
    ]

    keep_if-insert_keep :
        (x : A) (ys : List A) → p x ≡ true → keep_if p (insert x ys) ≡ x ∷ keep_if p ys
    unfolding insert
    keep_if-insert_keep x [] h = rw h
    keep_if-insert_keep x (y ∷ ys) h = elim (Bool-cases (less y x)) [
      | inl e ↦ elim (Bool-cases (p y)) [
        | inl q ↦ absurd (cc (tied y x q h))
        | inr q ↦ rw (e, insert, q, keep_if) (keep_if-insert_keep x ys h)
      ]
      | inr e ↦ rw (e, insert, h, keep_if)
    ]

    pub keep_if-sort_stable : (xs : List A) → keep_if p (sort_stable xs) ≡ keep_if p xs
    unfolding sort_stable
    keep_if-sort_stable [] = refl
    keep_if-sort_stable (x ∷ xs) = elim (Bool-cases (p x)) [
      | inl h ↦
          keep_if-insert_keep x (sort_stable xs) h
          ∙ rw (h, keep_if) (ap (◌∷◌ x) (keep_if-sort_stable xs))
      | inr h ↦ keep_if-insert_skip x (sort_stable xs) h ∙ rw (h, keep_if) (keep_if-sort_stable xs)
    ]

module _ {ℓ} {A : Type ℓ} (less : A → A → Bool) (p : A → Bool) where
  -- A part of a sorted list is sorted.
  pub keep_if-Sorted : (xs : List A) → Sorted less xs → Sorted less (keep_if p xs)
  keep_if-Sorted [] h = tt
  keep_if-Sorted (x ∷ xs) (q, h) = elim (Bool-cases (p x)) [
    | inl e ↦ rw (e, keep_if) (All-keep_if (λ y. less y x ≡ false) p xs q, keep_if-Sorted xs h)
    | inr e ↦ rw (e, keep_if) (keep_if-Sorted xs h)
  ]
