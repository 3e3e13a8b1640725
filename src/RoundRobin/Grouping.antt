-- ===== src/RoundRobin/Grouping.antt =====
-- The buckets hold every item once, so that taking them in turn is a permutation.
use mathlib.Core.List.{append_assoc, append-nil, perm_middle}
use mathlib.Core.Path.{ap₂}
use mathlib.Core.List.Perm
use articleflow.Prelude.{
  length-perm, length, suc, subst, keep_if_pos, keep_if_neg, eq_refl, refl, ◌∙◌, sym, ap, Perm,
  All-append, eq_iff, arith, Bool-cases, false, true, keep_if-append, map, ◌≡◌, ◌++◌, keep_if, All,
  Bool, [], ◌∷◌, List, ◌==◌, String, inl, inr,
}
use articleflow.Go.Map.{
  lookup_or-nil, Set, member, lookup_or, member-insert, lookup_or-insert, insert,
}
use articleflow.Dedup.Laws.{has_key, has_key-append, DistinctKeys, DistinctKeys-concat}
use articleflow.RoundRobin.{interleave, bucket_lists, Groups, file_item, file_all}
use articleflow.RoundRobin.Columns.{rounds-columns, columns-nil, columns-perm, columns, leftover}

pub eq_comm : (s t : String) → (s == t) ≡ (t == s)
eq_comm s t = ground (arith, eq_iff s t, eq_iff t s)

abbrev pub has : String → List String → Bool
has = has_key (λ s. s)

module _ {ℓ} {A : Type ℓ} (key : A → String) where
  -- The items of each source in turn.
  abbrev pub gathered : List String → List A → List A
  gathered [] items = []
  gathered (s ∷ order) items = keep_if (λ x. key x == s) items ++ gathered order items

  pub record Inv (g : Groups A) (items : List A) : Type ℓ where
    pub known : (t : String) → member t g.known ≡ has t g.order
    pub distinct : DistinctKeys (λ s. s) g.order
    pub filed : (t : String) → lookup_or [] t g.buckets ≡ keep_if (λ x. key x == t) items
    pub covered : All (λ x. has (key x) g.order ≡ true) items

  covered_grows :
      (s : String) (order : List String) (items : List A)
      → All (λ x. has (key x) order ≡ true) items
      → All (λ x. has (key x) (order ++ s ∷ []) ≡ true) items
  covered_grows s order [] h = tt
  covered_grows s order (x ∷ items) (h, hs) =
      (rw (has_key-append (λ s. s) (key x) order (s ∷ []), h), covered_grows s order items hs)

  filed_item :
      (g : Groups A) (items : List A) (x : A) (t : String)
      → ((u : String) → lookup_or [] u g.buckets ≡ keep_if (λ x. key x == u) items)
      → lookup_or [] t (insert (key x) (lookup_or [] (key x) g.buckets ++ x ∷ []) g.buckets)
        ≡ keep_if (λ x. key x == t) (items ++ x ∷ [])
  filed_item g items x t h =
      lookup_or-insert [] (key x) t (lookup_or [] (key x) g.buckets ++ x ∷ []) g.buckets
      ∙ elim (Bool-cases (key x == t)) [
        | inl e ↦
            let same : key x ≡ t = (eq_iff (key x) t).0 e in
            rw
              (
                e,
                keep_if-append (λ y. key y == t) items (x ∷ []),
                keep_if_pos (λ y. key y == t) x [] e,
              )
              (ap (λ b. b ++ x ∷ []) (ap (λ u. lookup_or [] u g.buckets) same ∙ h t))
        | inr e ↦
            rw
              (
                e,
                keep_if-append (λ y. key y == t) items (x ∷ []),
                keep_if_neg (λ y. key y == t) x [] e,
              )
              (h t ∙ sym (append-nil _))
      ]

  file_item-Inv :
      (g : Groups A) (items : List A) (x : A)
      → Inv g items
      → Inv (file_item key g x) (items ++ x ∷ [])
  unfolding file_item
  file_item-Inv g items x h = elim (Bool-cases (member (key x) g.known)) [
    | inl e ↦ rw e (record {
      known = h.known;
      distinct = h.distinct;
      filed = λ t. filed_item g items x t h.filed;
      covered = All-append _ items (x ∷ []) h.covered (sym (h.known (key x)) ∙ e, tt);
    })
    | inr e ↦ rw e (record {
      known = λ t.
          rw
            (
              member-insert t (key x) g.known,
              has_key-append (λ s. s) t g.order (key x ∷ []),
              h.known t,
            )
            (ground arith);
      distinct =
          DistinctKeys-concat (λ s. s) g.order (key x) h.distinct (sym (h.known (key x)) ∙ e);
      filed = λ t. filed_item g items x t h.filed;
      covered = All-append _ items (x ∷ []) (covered_grows (key x) g.order items h.covered) (
        rw (has_key-append (λ s. s) (key x) g.order (key x ∷ []), eq_refl (key x)) (ground arith),
        tt,
      );
    })
  ]

  file_all-Inv :
      (g : Groups A) (items xs : List A) → Inv g items → Inv (file_all key g xs) (items ++ xs)
  unfolding file_all
  file_all-Inv g items [] h = rw (append-nil items) h
  file_all-Inv g items (x ∷ xs) h =
      rw (append_assoc items (x ∷ []) xs) at
        (file_all-Inv (file_item key g x) (items ++ x ∷ []) xs (file_item-Inv g items x h))

  gathered-nil : (order : List String) → gathered order [] ≡ []
  gathered-nil [] = refl
  gathered-nil (s ∷ order) = gathered-nil order

  gathered_skip :
      (x : A) (order : List String) (xs : List A)
      → has (key x) order ≡ false
      → gathered order (x ∷ xs) ≡ gathered order xs
  gathered_skip x [] xs h = refl
  gathered_skip x (s ∷ order) xs h =
      ap₂ (◌++◌) (keep_if_neg (λ y. key y == s) x xs (ground (arith, eq_comm (key x) s)))
        (gathered_skip x order xs (ground arith))

  gathered_cons :
      (x : A) (order : List String) (xs : List A)
      → has (key x) order ≡ true
      → DistinctKeys (λ s. s) order
      → Perm (gathered order (x ∷ xs)) (x ∷ gathered order xs)
  gathered_cons x [] xs h d = cc
  gathered_cons x (s ∷ order) xs h (d, ds) = elim (Bool-cases (key x == s)) [
    | inl e ↦
        let same : s ≡ key x = sym ((eq_iff (key x) s).0 e) in
        subst (λ l. Perm l (x ∷ gathered (s ∷ order) xs))
          (sym (
            ap₂ (◌++◌) (keep_if_pos (λ y. key y == s) x xs e)
              (gathered_skip x order xs (rw same at d))))
          (Perm.refl _)
    | inr e ↦
        subst (λ l. Perm l (x ∷ gathered (s ∷ order) xs))
          (sym (ap (λ l. l ++ gathered order (x ∷ xs)) (keep_if_neg (λ y. key y == s) x xs e)))
          (Perm.trans
            (Perm.append_left (keep_if (λ y. key y == s) xs)
              (gathered_cons x order xs (ground (arith, eq_comm (key x) s)) ds))
            (perm_middle (keep_if (λ y. key y == s) xs) (gathered order xs)))
  ]

  gathered-perm :
      (order : List String) (xs : List A)
      → DistinctKeys (λ s. s) order
      → All (λ x. has (key x) order ≡ true) xs
      → Perm (gathered order xs) xs
  gathered-perm order [] d h = rw (gathered-nil order) (Perm.refl _)
  gathered-perm order (x ∷ xs) d (h, hs) =
      Perm.trans (gathered_cons x order xs h d) (Perm.cons x (gathered-perm order xs d hs))

  leftover-gathered :
      (order : List String) (m : String → List A) (xs : List A)
      → ((t : String) → m t ≡ keep_if (λ x. key x == t) xs)
      → leftover 0 (map m order) ≡ gathered order xs
  leftover-gathered [] m xs h = refl
  leftover-gathered (s ∷ order) m xs h = ap₂ (◌++◌) (h s) (leftover-gathered order m xs h)

  start-Inv :
      (order : List String) (known : Set)
      → DistinctKeys (λ s. s) order
      → ((t : String) → member t known ≡ has t order)
      → Inv (record { order = order; known = known; buckets = [] }) []
  start-Inv order known d k = record {
    known = k;
    distinct = d;
    filed = λ t. lookup_or-nil [] t;
    covered = tt;
  }

  -- The buckets after all items are filed.
  abbrev pub buckets_of : List String → Set → List A → List (List A)
  buckets_of order known items =
      bucket_lists (file_all key (record { order = order; known = known; buckets = [] }) items)

  module _ (order : List String) (known : Set) (distinct : DistinctKeys (λ s. s) order)
      (agrees : (t : String) → member t known ≡ has t order) (items : List A) where
    pub filed-Inv :
        Inv (file_all key (record { order = order; known = known; buckets = [] }) items) items
    filed-Inv =
        file_all-Inv (record { order = order; known = known; buckets = [] }) [] items
          (start-Inv order known distinct agrees)

    buckets-perm : Perm (leftover 0 (buckets_of order known items)) items
    unfolding bucket_lists
    buckets-perm =
        rw (leftover-gathered _ _ items filed-Inv.filed)
          (gathered-perm _ items filed-Inv.distinct filed-Inv.covered)

  -- The loop reads the buckets by columns, wherever the known sources are those of the order.
  pub interleave-columns :
      (order : List String) (known : Set) (items : List A)
      → DistinctKeys (λ s. s) order
      → ((t : String) → member t known ≡ has t order)
      → interleave key order known items
        ≡ columns (suc (length items)) 0 (buckets_of order known items)
  unfolding interleave
  interleave-columns order known [] d k =
      sym (
        columns-nil 1 0 (buckets_of order known []) (Perm.eq-nil (buckets-perm order known d k [])))
  interleave-columns order known (x ∷ items) d k =
      rounds-columns (suc (length (x ∷ items))) 0 (buckets_of order known (x ∷ items))
        (length (x ∷ items)) []
        (omega (arith, length-perm (buckets-perm order known d k (x ∷ items))))

  pub interleave-perm :
      (order : List String) (known : Set) (items : List A)
      → DistinctKeys (λ s. s) order
      → ((t : String) → member t known ≡ has t order)
      → Perm (interleave key order known items) items
  interleave-perm order known items d k =
      let all = buckets-perm order known d k items in
      subst (λ l. Perm l items) (sym (interleave-columns order known items d k))
        (Perm.trans
          (columns-perm (suc (length items)) 0 (buckets_of order known items)
            (omega (arith, length-perm all)))
          all)
