-- ===== src/ParserService/Parsers/Urls/Laws.antt =====
-- What the loops keep.
use articleflow.Dedup.Laws.{DistinctKeys-concat, has_key, DistinctKeys, has_key-append}
use articleflow.Go.Map.{member-insert, member-nil, member}
use articleflow.Prelude.Int.{◌≤ℤ◌, ℤ}
use articleflow.ParserService.Parsers.Urls.{
  leb_ℤ, ltb_ℤ, is_empty, pos, nothing_kept, passes_over, keep_url, keep_up_to,
}
use articleflow.Prelude.{
  All-append, All, true, inr, inl, Bool-cases, [], ◌∷◌, length-append, ◌≤◌, arith, suc, false,
  length, ◌≡◌, Bool, List, String,
}
use articleflow.Dedup.{Kept}

-- What the loops keep: URLs that are not empty, each once, and marked as seen.
pub record IsUrls (kept : Kept) : Type 0 where
  pub seen : (t : String) → member t kept.seen ≡ has_key (λ url. url) t kept.values
  pub distinct : DistinctKeys (λ url. url) kept.values
  pub filled : All (λ url. is_empty url ≡ false) kept.values

pub nothing_kept-IsUrls : IsUrls nothing_kept
nothing_kept-IsUrls = record { seen = member-nil; distinct = tt; filled = tt }

keep_url-IsUrls :
    (kept : Kept) (url : String)
    → IsUrls kept
    → is_empty url ≡ false
    → member url kept.seen ≡ false
    → IsUrls (keep_url kept url)
unfolding keep_url
keep_url-IsUrls kept url h full fresh = record {
  seen = λ t.
      rw (member-insert t url kept.seen, has_key-append (λ u. u) t kept.values (url ∷ []), h.seen t)
        (ground arith);
  distinct = DistinctKeys-concat (λ u. u) kept.values url h.distinct (ground (arith, h.seen url));
  filled = All-append (λ u. is_empty u ≡ false) kept.values (url ∷ []) h.filled (full, tt);
}

length-keep_url :
    (kept : Kept) (url : String) → length (keep_url kept url).values ≡ suc (length kept.values)
unfolding keep_url
length-keep_url kept url = omega (arith, length-append kept.values (url ∷ []))

-- What SearchURLs and collectSearchURLs owe: at most `limit` URLs, none of them empty, each once.
abbrev pub IsUrlList : ℤ → List String → Type 0
IsUrlList limit urls =
    (pos (length urls) ≤ℤ limit)
    × DistinctKeys (λ url. url) urls
    × All (λ url. is_empty url ≡ false) urls

module _ {ℓ} {A : Type ℓ} (url_of : A → String) (skip : A → Bool) where
  keep_new_url :
      (kept : Kept) (item : A)
      → IsUrls kept
      → passes_over url_of skip kept item ≡ false
      → IsUrls (keep_url kept (url_of item))
  unfolding passes_over
  keep_new_url kept item h new = keep_url-IsUrls kept (url_of item) h (ground arith) (ground arith)

  pub keep_up_to_lem :
      (limit : ℤ) (kept : Kept) (items : List A)
      → IsUrls kept
      → pos (suc (length kept.values)) ≤ℤ limit
      → IsUrls (keep_up_to url_of skip limit kept items)
        × (pos (length (keep_up_to url_of skip limit kept items).values) ≤ℤ limit)
        × (length kept.values ≤ length (keep_up_to url_of skip limit kept items).values)
  unfolding keep_up_to
  keep_up_to_lem limit kept [] h room = (h, omega arith, omega arith)
  keep_up_to_lem limit kept (item ∷ items) h room =
      elim (Bool-cases (passes_over url_of skip kept item)) [
        | inl skipped ↦ rw (keep_up_to, skipped) (keep_up_to_lem limit kept items h room)
        | inr new ↦
            let taken = keep_url kept (url_of item) in
            let taken_lem = keep_new_url kept item h new in
            let longer = length-keep_url kept (url_of item) in
            let positive : ltb_ℤ (pos 0) limit ≡ true = ground (arith, room) in
            elim (Bool-cases (leb_ℤ limit (pos (length taken.values)))) [
              | inl full ↦
                  rw (keep_up_to, new, positive, full)
                    (taken_lem, ground (arith, room, longer), ground (arith, longer))
              | inr more ↦
                  let (a, b, c) =
                    keep_up_to_lem limit taken items taken_lem (ground (arith, more)) in
                  rw (keep_up_to, new, positive, more) (a, b, ground (arith, c, longer))
            ]
      ]
