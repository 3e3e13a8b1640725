-- ===== src/ArticleService/Store/Search.antt =====
-- What a search returns: the articles that match, each once, page by page.
use articleflow.Go.Sort.{IsWeakOrder}
use articleflow.Go.Sort.Unique.{apart, sort_stable-keep_if}
use text.Mathlib.TextEquality.{IsScalar-prop}
use articleflow.Prelude.{eqb, not, all_pairs, every, Bool, true, refl}
use articleflow.Prelude.{
  take_all, drop-drop, drop_all, length-take, ◌||◌, ◌==◌, take-append-drop, ◌∙◌, zero, ltb, inr,
  take-nil, leb→le, inl, leb, Bool-cases, sym, ◌∷◌, ap, ◌++◌, ◌≡◌, length-perm, arith, ◌*◌, keep_if,
  ◌+◌, take, suc, ◌≤◌, drop, String, Perm, [], length, ℕ, List,
}
use mathlib.Core.List.Perm
use mathlib.Core.Path.{ap₂}
use native.Mathlib.Nat.{le_trans}
use articleflow.Prelude.Int.{pos, pos_part}
use articleflow.Go.Text.{is_empty}
use articleflow.Go.Map.{member, member-insert, member-nil}
use articleflow.Go.Sort.{sort_stable, sort_stable-perm}
use articleflow.Contracts.Query.{
  clamp_limit, clamp_offset, clamp_limit_fixed, clamp_offset_fixed, clamp_limit_number,
}
use articleflow.Contracts.Article.{Article, SearchQuery, normalize}
use articleflow.Dedup.Laws.{DistinctKeys, dedup-DistinctKeys}
use articleflow.RoundRobin.Grouping.{has, interleave-perm}
use articleflow.ArticleService.Text.{clean_source, clean_source_order}
use articleflow.ArticleService.Store.{
  matches, bucket_key, known_sources, interleave_articles_by_source, newer, found, page, search,
}

clean_source_order-DistinctKeys :
    (sources : List String) → DistinctKeys (λ s. s) (clean_source_order sources)
unfolding clean_source_order
clean_source_order-DistinctKeys sources = dedup-DistinctKeys clean_source (λ s. s) is_empty sources

known_sources-has :
    (order : List String) (t : String) → member t (known_sources order) ≡ has t order
known_sources-has [] t = member-nil t
known_sources-has (s ∷ order) t =
    member-insert t s (known_sources order) ∙ ap (λ b. s == t || b) (known_sources-has order t)

-- Interleaving by source loses no article and doubles none, whatever order of sources is asked for.
pub interleave_articles_by_source-perm :
    (articles : List Article) (sources : List String)
    → Perm (interleave_articles_by_source articles sources) articles
unfolding interleave_articles_by_source
interleave_articles_by_source-perm articles sources =
    interleave-perm bucket_key (clean_source_order sources)
      (known_sources (clean_source_order sources)) articles
      (clean_source_order-DistinctKeys sources) (known_sources-has (clean_source_order sources))

pub found-perm :
    (visited : List Article) (query : SearchQuery)
    → Perm (found visited query) (keep_if (matches query) visited)
unfolding found
found-perm visited query =
    Perm.trans
      (interleave_articles_by_source-perm (sort_stable newer (keep_if (matches query) visited))
        query.sources)
      (sort_stable-perm newer (keep_if (matches query) visited))

pub page-take :
    (offset limit : ℕ) (xs : List Article) → page offset limit xs ≡ take limit (drop offset xs)
unfolding page
page-take offset limit xs = elim (Bool-cases (leb (length xs) offset)) [
  | inl e ↦ rw (e, drop_all offset xs (leb→le _ _ e)) (sym (take-nil limit))
  | inr e ↦ rw e (elim (Bool-cases (ltb limit (length (drop offset xs)))) [
    | inl f ↦ rw f
    | inr f ↦ rw f (sym (take_all limit (drop offset xs) (ground arith)))
  ])
]

length-page : (offset limit : ℕ) (xs : List Article) → length (page offset limit xs) ≤ limit
length-page offset limit xs =
    rw (page-take offset limit xs) (omega (arith, length-take limit (drop offset xs)))

-- The pages of size `n`, `k` of them, from an offset on. Each request ranges over the map anew: the
-- request for an offset visits the articles in the order `visits offset`.
unfoldable pub walk : (ℕ → List Article) → SearchQuery → ℕ → ℕ → ℕ → List Article
walk visits query n zero offset = []
walk visits query n (suc k) offset =
    search (visits offset) (record query { offset = pos offset; limit = pos n })
    ++ walk visits query n k (offset + n)

-- Two articles have two dates.
abbrev pub other_date : Article → Article → Bool
other_date a b = not (eqb a.published_at b.published_at)

newer-IsWeakOrder : IsWeakOrder newer
newer-IsWeakOrder = record {
  asym = λ a b h. ground (arith, h);
  ntrans = λ a b c h k. ground (arith, h, k);
}

articles_set : IsSet (List Article)
articles_set = hlevel IsScalar-prop

every_mono :
    {A : Type 0} (p q : A → Bool) (xs : List A)
    → ((x : A) → p x ≡ true → q x ≡ true)
    → every p xs ≡ true
    → every q xs ≡ true
every_mono p q [] f h = refl
every_mono p q (x ∷ xs) f h =
    let here = f x (ground (arith, h)) in
    let rest = every_mono p q xs f (ground (arith, h)) in ground (arith, here, rest)

apart_by_date :
    (xs : List Article)
    → all_pairs other_date xs ≡ true
    → all_pairs (apart newer newer-IsWeakOrder) xs ≡ true
apart_by_date [] h = refl
apart_by_date (x ∷ xs) h =
    let here =
      every_mono (other_date x) (apart newer newer-IsWeakOrder x) xs (λ y e. ground (arith, e))
        (ground (arith, h)) in
    let rest = apart_by_date xs (ground (arith, h)) in ground (arith, here, rest)

-- Articles of different dates are found in one order, whatever the order of the visit.
found_same :
    (visited articles : List Article) (query : SearchQuery)
    → Perm articles visited
    → all_pairs other_date (keep_if (matches query) articles) ≡ true
    → found visited query ≡ found articles query
unfolding found
found_same visited articles query any_order dates =
    ap (λ l. interleave_articles_by_source l query.sources)
      (sym (
        sort_stable-keep_if newer newer-IsWeakOrder (matches query) articles visited articles_set
          any_order (apart_by_date (keep_if (matches query) articles) dates)))

search-page :
    (visited : List Article) (query : SearchQuery) (n offset : ℕ)
    → 1 ≤ n
    → n ≤ 100
    → search visited (record query { offset = pos offset; limit = pos n })
      ≡ page offset n (found visited (normalize query))
unfolding search normalize found matches
search-page visited query n offset low high = rw (
  clamp_limit_fixed (pos n) (omega arith) (omega arith),
  clamp_offset_fixed (pos offset) (omega arith),
)

module _ (visits : ℕ → List Article) (articles : List Article) (query : SearchQuery)
    (same : (offset : ℕ)
      → found (visits offset) (normalize query) ≡ found articles (normalize query)) where
  walk-drop :
      (n k offset : ℕ)
      → 1 ≤ n
      → n ≤ 100
      → length (found articles (normalize query)) ≤ offset + k * n
      → walk visits query n k offset ≡ drop offset (found articles (normalize query))
  unfolding walk
  walk-drop n zero offset low high h =
      sym (drop_all offset (found articles (normalize query)) (omega arith))
  walk-drop n (suc k) offset low high h =
      ap₂ (◌++◌)
        (search-page (visits offset) query n offset low high
          ∙ ap (page offset n) (same offset)
          ∙ page-take offset n (found articles (normalize query)))
        (walk-drop n k (offset + n) low high (grind arith)
          ∙ sym (drop-drop n offset (found articles (normalize query))))
      ∙ take-append-drop n (drop offset (found articles (normalize query)))

-- Reading page after page of a store that stays as it is, with any page size from 1 to 100 and in
-- whatever order each request visits the articles, gives every article that matches the query exactly
-- once, if there are enough pages for them and no two of the articles that match have one date.
pub walk-perm :
    (visits : ℕ → List Article) (articles : List Article) (query : SearchQuery) (n k : ℕ)
    → 1 ≤ n
    → n ≤ 100
    → ((offset : ℕ) → Perm articles (visits offset))
    → all_pairs other_date (keep_if (matches (normalize query)) articles) ≡ true
    → length (keep_if (matches (normalize query)) articles) ≤ k * n
    → Perm (walk visits query n k 0) (keep_if (matches (normalize query)) articles)
walk-perm visits articles query n k low high any_order dates h =
    let all = found-perm articles (normalize query) in
    let same = λ (offset : ℕ).
      found_same (visits offset) articles (normalize query) (any_order offset) dates in
    rw (walk-drop visits articles query same n k 0 low high (omega (arith, length-perm all))) all

-- No page is longer than the limit of the normalised query, and so than 100.
pub length-search :
    (visited : List Article) (query : SearchQuery)
    → (length (search visited query) ≤ pos_part (clamp_limit query.limit))
      × (length (search visited query) ≤ 100)
unfolding search normalize
length-search visited query =
    let short =
      length-page (pos_part (clamp_offset query.offset)) (pos_part (clamp_limit query.limit))
        (found visited (normalize query)) in
    (short, le_trans short ((clamp_limit_number query.limit).1))
