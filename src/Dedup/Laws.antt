-- ===== src/Dedup/Laws.antt =====
-- What the loop keeps: values that were there, none of them skipped, one for each key.
use articleflow.Prelude.{
  eq_refl, ◌∙◌, All-append, sym, inr, inl, All, ◌||◌, refl, eq_iff, arith, ◌==◌, ◌≡◌, false,
  Bool-cases,
}
use articleflow.Go.Map.{member, member-insert, member-nil}
use articleflow.Dedup.{true, [], ◌++◌, ◌∷◌, Bool, List, String, Kept, keep_new, keep_all, dedup}

module _ {ℓ} {A : Type ℓ} (key : A → String) where
  -- Some item has this key.
  abbrev pub has_key : String → List A → Bool
  has_key k [] = false
  has_key k (x ∷ xs) = key x == k || has_key k xs

  pub has_key-append :
      (k : String) (xs ys : List A) → has_key k (xs ++ ys) ≡ (has_key k xs || has_key k ys)
  has_key-append k [] ys = refl
  has_key-append k (x ∷ xs) ys = ground (arith, has_key-append k xs ys)

  -- No two items have one key.
  abbrev pub DistinctKeys : List A → Type 0
  DistinctKeys [] = Unit
  DistinctKeys (x ∷ xs) = (has_key (key x) xs ≡ false) × DistinctKeys xs

  pub DistinctKeys-concat :
      (xs : List A) (y : A)
      → DistinctKeys xs
      → has_key (key y) xs ≡ false
      → DistinctKeys (xs ++ y ∷ [])
  DistinctKeys-concat [] y d h = (refl, tt)
  DistinctKeys-concat (x ∷ xs) y (e, d) h = (
    rw (has_key-append (key x) xs (y ∷ []), e)
        (ground (arith, eq_iff (key x) (key y), eq_iff (key y) (key x))),
    DistinctKeys-concat xs y d (ground arith),
  )

module _ (norm : String → String) (key : String → String) (skip : String → Bool) where
  record Inv (k : Kept) : Type 0 where
    seen : (t : String) → member t k.seen ≡ has_key key t k.values
    distinct : DistinctKeys key k.values

  keep_new-Inv : (k : Kept) (raw : String) → Inv k → Inv (keep_new norm key skip k raw)
  unfolding keep_new
  keep_new-Inv k raw h = elim (Bool-cases (skip (norm raw) || member (key (norm raw)) k.seen)) [
    | inl e ↦ rw e h
    | inr e ↦ rw e (record {
      seen = λ t.
          rw
            (
              member-insert t (key (norm raw)) k.seen,
              has_key-append key t k.values (norm raw ∷ []),
              h.seen t,
            )
            (ground arith);
      distinct =
          DistinctKeys-concat key k.values (norm raw) h.distinct
            (ground (arith, h.seen (key (norm raw))));
    })
  ]

  keep_new-grows :
      (k : Kept) (raw t : String)
      → has_key key t k.values ≡ true
      → has_key key t (keep_new norm key skip k raw).values ≡ true
  unfolding keep_new
  keep_new-grows k raw t h = elim (Bool-cases (skip (norm raw) || member (key (norm raw)) k.seen)) [
    | inl e ↦ rw e h
    | inr e ↦ rw (e, has_key-append key t k.values (norm raw ∷ []), h)
  ]

  -- A value that is not skipped is there, or one with its key is.
  abbrev pub Covered : List String → String → Type 0
  Covered values raw = skip (norm raw) ≡ false → has_key key (key (norm raw)) values ≡ true

  keep_new-covers :
      (k : Kept) (raw : String) → Inv k → Covered (keep_new norm key skip k raw).values raw
  unfolding keep_new
  keep_new-covers k raw h skipped = elim (Bool-cases (member (key (norm raw)) k.seen)) [
    | inl e ↦ rw (skipped, e) (sym (h.seen (key (norm raw))) ∙ e)
    | inr e ↦
        rw
          (
            skipped,
            e,
            has_key-append key (key (norm raw)) k.values (norm raw ∷ []),
            eq_refl (key (norm raw)),
          )
          (ground arith)
  ]

  keep_all-Inv : (k : Kept) (raws : List String) → Inv k → Inv (keep_all norm key skip k raws)
  unfolding keep_all
  keep_all-Inv k [] h = h
  keep_all-Inv k (raw ∷ raws) h =
      keep_all-Inv (keep_new norm key skip k raw) raws (keep_new-Inv k raw h)

  keep_all-grows :
      (k : Kept) (raws : List String) (t : String)
      → has_key key t k.values ≡ true
      → has_key key t (keep_all norm key skip k raws).values ≡ true
  unfolding keep_all
  keep_all-grows k [] t h = h
  keep_all-grows k (raw ∷ raws) t h =
      keep_all-grows (keep_new norm key skip k raw) raws t (keep_new-grows k raw t h)

  keep_all-covers :
      (k : Kept) (raws : List String)
      → Inv k
      → All (Covered (keep_all norm key skip k raws).values) raws
  unfolding keep_all
  keep_all-covers k [] h = tt
  keep_all-covers k (raw ∷ raws) h = (
    (λ s.
        keep_all-grows (keep_new norm key skip k raw) raws (key (norm raw))
          (keep_new-covers k raw h s)),
    keep_all-covers (keep_new norm key skip k raw) raws (keep_new-Inv k raw h),
  )

  empty-Inv : Inv (record { seen = []; values = [] })
  empty-Inv = record { seen = member-nil; distinct = tt }

  pub dedup-DistinctKeys : (raws : List String) → DistinctKeys key (dedup norm key skip raws)
  unfolding dedup
  dedup-DistinctKeys raws = (keep_all-Inv _ raws empty-Inv).distinct

  pub dedup-covers : (raws : List String) → All (Covered (dedup norm key skip raws)) raws
  unfolding dedup
  dedup-covers raws = keep_all-covers _ raws empty-Inv

  keep_all-All {ℓ} :
      (P : String → Type ℓ) (k : Kept) (raws : List String)
      → All P k.values
      → All (λ raw. skip (norm raw) ≡ false → P (norm raw)) raws
      → All P (keep_all norm key skip k raws).values
  unfolding keep_all keep_new
  keep_all-All P k [] h g = h
  keep_all-All P k (raw ∷ raws) h (p, g) =
      keep_all-All P (keep_new norm key skip k raw) raws
        (elim (Bool-cases (skip (norm raw))) [
          | inl e ↦ rw e h
          | inr e ↦ elim (Bool-cases (member (key (norm raw)) k.seen)) [
            | inl m ↦ rw (e, m) h
            | inr m ↦ rw (e, m) (All-append P k.values (norm raw ∷ []) h (p e, tt))
          ]
        ])
        g

  -- What holds of each normalised input that is not skipped holds of each value that is kept.
  pub dedup-All {ℓ} :
      (P : String → Type ℓ) (raws : List String)
      → All (λ raw. skip (norm raw) ≡ false → P (norm raw)) raws
      → All P (dedup norm key skip raws)
  unfolding dedup
  dedup-All P raws g = keep_all-All P _ raws tt g

  kept_if_kept :
      (raws : List String) → All (λ raw. skip (norm raw) ≡ false → skip (norm raw) ≡ false) raws
  kept_if_kept [] = tt
  kept_if_kept (raw ∷ raws) = ((λ e. e), kept_if_kept raws)

  pub dedup-not_skipped :
      (raws : List String) → All (λ v. skip v ≡ false) (dedup norm key skip raws)
  dedup-not_skipped raws = dedup-All _ raws (kept_if_kept raws)
