-- ===== src/RoundRobin/Order.antt =====
-- Taking items in turn keeps the order of the items of each source.
use mathlib.Core.Path.{ap₂}
use articleflow.Prelude.{
  length-keep_if, take_all, length, sym, subst, refl, ap, zero, none, ◌∙◌, arith, keep_if_pos,
  keep_if-append, keep_if_neg, Option-cases, map, eq_iff, take-nil, Bool-cases, keep_if, false,
  drop, take, suc, true, ◌∷◌, ◌++◌, ◌≡◌, some, [], All, ◌==◌, get_elem?, ℕ, List, Bool, Option,
  String, inl, inr,
}
use articleflow.Dedup.Laws.{DistinctKeys}
use articleflow.RoundRobin.{lookup_or, file_all, interleave, member, Set, bucket_lists, pick}
use articleflow.RoundRobin.Columns.{columns, drop-cases}
use articleflow.RoundRobin.Grouping.{interleave-columns, filed-Inv, has}

module _ {ℓ} {A : Type ℓ} where
  abbrev option_list : Option A → List A
  option_list none = []
  option_list (some x) = x ∷ []

  take-suc :
      (n i : ℕ) (b : List A)
      → option_list (get_elem? b i) ++ take n (drop (suc i) b) ≡ take (suc n) (drop i b)
  take-suc n i b = elim (drop-cases i b) [
    | inl (e, d, d') ↦ rw (e, d, d') (take-nil n)
    | inr (x, e, d) ↦ rw (e, d)
  ]

  All-get_elem? :
      (P : A → Type 0) (b : List A) (i : ℕ) (x : A) → All P b → get_elem? b i ≡ some x → P x
  All-get_elem? P [] i x h e = cc
  All-get_elem? P (y ∷ b) zero x h e = let same : y ≡ x = cc in rw same at (h.0)
  All-get_elem? P (y ∷ b) (suc i) x h e = All-get_elem? P b i x h.1 e

  keep_if-All : (p : A → Bool) (xs : List A) → All (λ x. p x ≡ true) (keep_if p xs)
  keep_if-All p [] = tt
  keep_if-All p (x ∷ xs) = elim (Bool-cases (p x)) [
    | inl e ↦ rw (e, keep_if) (e, keep_if-All p xs)
    | inr e ↦ rw (e, keep_if) (keep_if-All p xs)
  ]

module _ {ℓ} {A : Type ℓ} (key : A → String) (m : String → List A) where
  abbrev from : String → A → Bool
  from t = λ x. key x == t

  module _ (own : (s : String) → All (λ x. from s x ≡ true) (m s)) (t : String) (i : ℕ) where
    keep_if-other :
        (s : String) (x : A) (rest : List A)
        → (s == t) ≡ false
        → get_elem? (m s) i ≡ some x
        → keep_if (from t) (x ∷ rest) ≡ keep_if (from t) rest
    keep_if-other s x rest h e =
        let mine = All-get_elem? (λ y. from s y ≡ true) (m s) i x (own s) e in
        let same : key x ≡ s = (eq_iff (key x) s).0 mine in keep_if_neg (from t) x rest (rw same h)

    keep_if-pick_none :
        (order : List String) → has t order ≡ false → keep_if (from t) (pick i (map m order)) ≡ []
    unfolding pick
    keep_if-pick_none [] h = refl
    keep_if-pick_none (s ∷ order) h = elim (Option-cases (get_elem? (m s) i)) [
      | inl e ↦ rw (e, pick) (keep_if-pick_none order (ground arith))
      | inr (x, e) ↦
          rw (e, pick)
            (keep_if-other s x (pick i (map m order)) (ground arith) e
              ∙ keep_if-pick_none order (ground arith))
    ]

    keep_if-pick :
        (order : List String)
        → has t order ≡ true
        → DistinctKeys (λ s. s) order
        → keep_if (from t) (pick i (map m order)) ≡ option_list (get_elem? (m t) i)
    unfolding pick
    keep_if-pick [] h d = cc
    keep_if-pick (s ∷ order) h (d, ds) = elim (Bool-cases (s == t)) [
      | inl e ↦
          let same : s ≡ t = (eq_iff s t).0 e in
          let others = keep_if-pick_none order (rw same at d) in
          elim (Option-cases (get_elem? (m t) i)) [
            | inl g ↦ rw (same, g, pick) others
            | inr (x, g) ↦
                rw (same, g, pick)
                  (keep_if_pos (from t) x (pick i (map m order))
                      (All-get_elem? (λ y. from t y ≡ true) (m t) i x (own t) g)
                    ∙ ap (◌∷◌ x) others)
          ]
      | inr e ↦ elim (Option-cases (get_elem? (m s) i)) [
        | inl g ↦ rw (g, pick) (keep_if-pick order (ground arith) ds)
        | inr (x, g) ↦
            rw (g, pick)
              (keep_if-other s x (pick i (map m order)) e g ∙ keep_if-pick order (ground arith) ds)
      ]
    ]

  keep_if-columns_none :
      (own : (s : String) → All (λ x. from s x ≡ true) (m s)) (t : String) (order : List String)
      (n i : ℕ)
      → has t order ≡ false
      → keep_if (from t) (columns n i (map m order)) ≡ []
  unfolding columns
  keep_if-columns_none own t order zero i h = refl
  keep_if-columns_none own t order (suc n) i h =
      keep_if-append (from t) (pick i (map m order)) (columns n (suc i) (map m order))
      ∙ ap₂ (◌++◌) (keep_if-pick_none own t i order h)
          (keep_if-columns_none own t order n (suc i) h)

  keep_if-columns :
      (own : (s : String) → All (λ x. from s x ≡ true) (m s)) (t : String) (order : List String)
      (n i : ℕ)
      → has t order ≡ true
      → DistinctKeys (λ s. s) order
      → keep_if (from t) (columns n i (map m order)) ≡ take n (drop i (m t))
  unfolding columns
  keep_if-columns own t order zero i h d = refl
  keep_if-columns own t order (suc n) i h d =
      keep_if-append (from t) (pick i (map m order)) (columns n (suc i) (map m order))
      ∙ ap₂ (◌++◌) (keep_if-pick own t i order h d) (keep_if-columns own t order n (suc i) h d)
      ∙ take-suc n i (m t)

module _ {ℓ} {A : Type ℓ} (key : A → String) where
  keep_if_uncovered :
      (order : List String) (t : String) (items : List A)
      → All (λ x. has (key x) order ≡ true) items
      → has t order ≡ false
      → keep_if (λ x. key x == t) items ≡ []
  keep_if_uncovered order t [] h e = refl
  keep_if_uncovered order t (x ∷ items) (h, hs) e = elim (Bool-cases (key x == t)) [
    | inl q ↦ let same : key x ≡ t = (eq_iff (key x) t).0 q in cc
    | inr q ↦ rw (q, keep_if) (keep_if_uncovered order t items hs e)
  ]

  -- The items of one source stand in the result as they stood in the input.
  pub keep_if-interleave :
      (order : List String) (known : Set) (items : List A)
      → DistinctKeys (λ s. s) order
      → ((u : String) → member u known ≡ has u order)
      → (t : String)
      → keep_if (λ x. key x == t) (interleave key order known items)
        ≡ keep_if (λ x. key x == t) items
  unfolding bucket_lists
  keep_if-interleave order known items d k t =
      let g = file_all key (record { order = order; known = known; buckets = [] }) items in
      let inv = filed-Inv key order known d k items in
      let m = λ (s : String). lookup_or [] s g.buckets in
      let own = λ (s : String).
        subst (All (λ x. (key x == s) ≡ true)) (sym (inv.filed s))
          (keep_if-All (λ x. key x == s) items) in
      ap (keep_if (λ x. key x == t)) (interleave-columns key order known items d k)
      ∙ elim (Bool-cases (has t g.order)) [
        | inl e ↦
            keep_if-columns key m own t g.order (suc (length items)) 0 e inv.distinct
            ∙ ap (take (suc (length items))) (inv.filed t)
            ∙ take_all (suc (length items)) _
                (omega (arith, length-keep_if (λ x. key x == t) items))
        | inr e ↦
            keep_if-columns_none key m own t g.order (suc (length items)) 0 e
            ∙ sym (keep_if_uncovered g.order t items inv.covered e)
      ]
