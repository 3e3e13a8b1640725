-- ===== src/Ranking/Diversity/Laws.antt =====
-- What mixing the sources keeps, and what it achieves.
use mathlib.Core.List.Perm
use articleflow.Prelude.{
  length-map, length-perm, zero, length, suc, ◌≤◌, ltb, ℕ, eq_iff, every-perm, ◌∙◌, sym, arith, map,
  inr, false, inl, Option, Bool-cases, refl, [], ◌∷◌, not, true, every, Perm, some, none, ◌≡◌, List,
  Bool, String,
}
use articleflow.Go.Float.{Float64}
use articleflow.Contracts.Feed.{FeedItem}
use articleflow.Ranking.Diversity.{
  diversify_from, diversify_ranked_items, instead, same_source, normalized_source, found_behind,
  take_first, place_item, can_replace,
}

module _ {A : Type 0} (test : A → Bool) where
  -- What a search of the list may give: nothing, and then no item passes the test; or an item that
  -- passes, taken out of the list.
  abbrev Found : List A → Option (A × List A) → Type 0
  Found xs none = every (λ x. not (test x)) xs ≡ true
  Found xs (some (found, others)) = (test found ≡ true) × Perm (found ∷ others) xs

  found_behind-Found :
      (x : A) (xs : List A) (r : Option (A × List A))
      → test x ≡ false
      → Found xs r
      → Found (x ∷ xs) (found_behind x r)
  found_behind-Found x xs none e h = ground (arith, e, h)
  found_behind-Found x xs (some (found, others)) e (passes, perm) =
      (passes, Perm.trans (Perm.swap x found others) (Perm.cons x perm))

  take_first-Found : (xs : List A) → Found xs (take_first test xs)
  unfolding take_first
  take_first-Found [] = refl
  take_first-Found (x ∷ xs) = elim (Bool-cases (test x)) [
    | inl e ↦ rw (take_first, e) (e, Perm.refl _)
    | inr e ↦
        rw (take_first, e) (found_behind-Found x xs (take_first test xs) e (take_first-Found xs))
  ]

module _ (f : Float64) where
  -- An item without the reasons of its score.
  abbrev pub plain : FeedItem f.Float → FeedItem f.Float
  plain item = record item { score_reasons = [] }

  abbrev Item : Type 0
  Item = FeedItem f.Float

  every-plain :
      (p : Item → Bool) (xs : List Item)
      → ((x : Item) → p (plain x) ≡ p x)
      → every p (map plain xs) ≡ every p xs
  every-plain p [] h = refl
  every-plain p (x ∷ xs) h = ground (arith, h x, every-plain p xs h)

  -- What holds of each item, whatever its reasons, holds of the same items in another order.
  every-plain-perm :
      (p : Item → Bool) (xs ys : List Item)
      → ((x : Item) → p (plain x) ≡ p x)
      → Perm (map plain xs) (map plain ys)
      → every p xs ≡ true
      → every p ys ≡ true
  every-plain-perm p xs ys h d e =
      sym (every-plain p ys h)
      ∙ every-perm p (map plain xs) (map plain ys) d (every-plain p xs h ∙ e)

  -- No item behind `item` may stand in for it, if it has the source `previous`.
  abbrev pub IsPlaced : String → Item → List Item → Type 0
  IsPlaced previous item items =
      same_source previous (normalized_source item.source_name) ≡ true
      → every (λ candidate. not (can_replace f previous item candidate)) items ≡ true

  -- A place that has the source of the place before it can be filled no better.
  abbrev pub IsDiverse : String → List Item → Type 0
  IsDiverse previous [] = Unit
  IsDiverse previous (item ∷ items) =
      IsPlaced previous item items × IsDiverse (normalized_source item.source_name) items

  -- The case of an item that has the source of the place before it.
  instead_lem :
      (previous : String) (item : Item) (items : List Item)
      → same_source previous (normalized_source item.source_name) ≡ true
      → (r : Option (Item × List Item)) → Found (can_replace f previous item) items r
      → let (placed, others) = instead f item items r in
        Perm (map plain (placed ∷ others)) (map plain (item ∷ items))
        × IsPlaced previous placed others
  unfolding can_replace same_source
  instead_lem previous item items same none h = (Perm.refl _, λ _. h)
  instead_lem previous item items same (some (found, others)) (passes, perm) = (
    Perm.trans (Perm.swap (plain item) (plain found) (map plain others))
        (Perm.cons (plain item) (Perm.map plain perm)),
    λ again. ground (
      arith,
      again,
      passes,
      eq_iff previous (normalized_source found.source_name),
      eq_iff (normalized_source found.source_name) previous,
    ),
  )

  place_item_lem :
      (previous : String) (item : Item) (items : List Item)
      → let (placed, others) = place_item f previous item items in
        Perm (map plain (placed ∷ others)) (map plain (item ∷ items))
        × IsPlaced previous placed others
  unfolding place_item same_source can_replace
  place_item_lem previous item items =
      elim (Bool-cases (same_source previous (normalized_source item.source_name))) [
        | inr differs ↦
            rw (place_item, differs) (Perm.refl _, λ same. ground (arith, differs, same))
        | inl same ↦
            rw (place_item, same)
              (instead_lem previous item items same (take_first (can_replace f previous item) items)
                (take_first-Found (can_replace f previous item) items))
      ]

  diversify_from-perm :
      (rounds : ℕ) (previous : String) (items : List Item)
      → Perm (map plain (diversify_from f rounds previous items)) (map plain items)
  unfolding diversify_from
  diversify_from-perm zero previous items = Perm.refl _
  diversify_from-perm (suc rounds) previous [] = Perm.refl _
  diversify_from-perm (suc rounds) previous (item ∷ items) =
      let (placed, others) = place_item f previous item items in
      Perm.trans
        (Perm.cons (plain placed)
          (diversify_from-perm rounds (normalized_source placed.source_name) others))
        (place_item_lem previous item items).0

  diversify_from-IsDiverse :
      (rounds : ℕ) (previous : String) (items : List Item)
      → length items ≤ rounds
      → IsDiverse previous (diversify_from f rounds previous items)
  unfolding diversify_from
  diversify_from-IsDiverse zero previous [] h = tt
  diversify_from-IsDiverse zero previous (item ∷ items) h = absurd (omega arith)
  diversify_from-IsDiverse (suc rounds) previous [] h = tt
  diversify_from-IsDiverse (suc rounds) previous (item ∷ items) h =
      let (placed, others) = place_item f previous item items in
      let next = normalized_source placed.source_name in
      let (perm, best) = place_item_lem previous item items in
      let later = diversify_from-perm rounds next others in
      (
        (λ same.
            every-plain-perm (λ candidate. not (can_replace f previous placed candidate)) others
              (diversify_from f rounds next others) (λ x. refl) (Perm.symm later) (best same)),
        diversify_from-IsDiverse rounds next others
            (omega (arith, length-perm perm, length-map plain others, length-map plain items)),
      )

  -- Mixing the sources keeps every item, once each, with its score: only the order and the reasons
  -- change.
  pub diversify_ranked_items-perm :
      (items : List (FeedItem f.Float))
      → Perm (map plain (diversify_ranked_items f items)) (map plain items)
  unfolding diversify_ranked_items
  diversify_ranked_items-perm [] = Perm.refl _
  diversify_ranked_items-perm (item ∷ items) = elim (Bool-cases (ltb (length items) 2)) [
    | inl few ↦ rw (diversify_ranked_items, few) (Perm.refl _)
    | inr more ↦
        rw (diversify_ranked_items, more)
          (Perm.cons (plain item)
            (diversify_from-perm (length items) (normalized_source item.source_name) items))
  ]

  -- In a feed of three items or more, two neighbours of one source stand together only where no
  -- later item of another source has a score at most 5 lower than the second one.
  pub diversify_ranked_items-IsDiverse :
      (items : List (FeedItem f.Float))
      → 3 ≤ length items
      → IsDiverse "" (diversify_ranked_items f items)
  unfolding diversify_ranked_items same_source
  diversify_ranked_items-IsDiverse [] many = tt
  diversify_ranked_items-IsDiverse (item ∷ items) many =
      let enough : ltb (length items) 2 ≡ false = ground arith in
      rw (diversify_ranked_items, enough)
        (
          (λ same. ground (arith, same)),
          diversify_from-IsDiverse (length items) (normalized_source item.source_name) items
              (omega arith),
        )
