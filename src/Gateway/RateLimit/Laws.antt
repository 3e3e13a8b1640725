-- ===== src/Gateway/RateLimit/Laws.antt =====
-- How many requests of a client pass the limit.
use articleflow.Prelude.{
  ◌∙◌, refl, inr, leb, inl, ◌≡◌, ◌+◌, ◌-◌, ◌<◌, ◌==◌, ◌&&◌, if◌then◌else◌, ℕ, suc, List, [], ◌∷◌,
  String, false, arith, min, All, eq_iff, eq_refl, Bool-cases,
}
use articleflow.Prelude.Int.{ℤ, pos, pos_part, leb_ℤ}
use articleflow.Go.Time.{Time, is_zero}
use articleflow.Go.Map.{insert, Map, lookup_or, lookup_or-insert}
use articleflow.Gateway.RateLimit.{
  RateLimitBucket, zero_bucket, effective_window, open_bucket, count_request, serve,
}

-- The requests of the key.
abbrev pub asked : String → List (Time × String) → ℕ
asked key [] = 0
asked key ((current, name) ∷ requests) = (if name == key then 1 else 0) + asked key requests

-- The requests of the key that pass, of a sequence of requests.
unfoldable pub passed : ℤ → ℤ → String → Map RateLimitBucket → List (Time × String) → ℕ
passed limit window key buckets [] = 0
passed limit window key buckets ((current, name) ∷ requests) =
    let (buckets', passes) = serve limit window buckets current name in
    (if name == key && passes then 1 else 0) + passed limit window key buckets' requests

serve-counts :
    (limit window : ℤ) (buckets : Map RateLimitBucket) (current : Time) (key : String)
    → leb_ℤ limit (pos 0) ≡ false
    → serve limit window buckets current key
      ≡ count_request (pos_part limit) (effective_window window) buckets current key
unfolding serve
serve-counts limit window buckets current key h = rw (serve, h) refl

open_bucket-open :
    (window : ℕ) (current start count : ℕ)
    → is_zero start ≡ false
    → current < start + window
    → open_bucket window current (record { window_start = start; count = count })
      ≡ record { window_start = start; count = count }
unfolding open_bucket
open_bucket-open window current start count set inside =
    let late : leb (start + window) current ≡ false = ground arith in
    rw (open_bucket, set, late) refl

count_request-open :
    (most width : ℕ) (buckets : Map RateLimitBucket) (current : Time) (key : String)
    (start count : ℕ)
    → is_zero start ≡ false
    → current < start + width
    → lookup_or zero_bucket key buckets ≡ record { window_start = start; count = count }
    → count_request most width buckets current key ≡ (
      insert key (record { window_start = start; count = suc count }) buckets,
      leb (suc count) most,
    )
unfolding count_request
count_request-open most width buckets current key start count set inside known =
    rw (count_request, known, open_bucket-open width current start count set inside) refl

-- Within a window that has counted `count` requests of the key, its next ones pass until `limit` are
-- counted, whatever other clients send in between.
pub window_lem :
    (limit window : ℤ) (key : String) (start count : ℕ) (buckets : Map RateLimitBucket)
    (requests : List (Time × String))
    → leb_ℤ limit (pos 0) ≡ false
    → is_zero start ≡ false
    → lookup_or zero_bucket key buckets ≡ record { window_start = start; count = count }
    → All (λ request. request.0 < start + effective_window window) requests
    → passed limit window key buckets requests ≡ min (asked key requests) (pos_part limit - count)
unfolding passed count_request
window_lem limit window key start count buckets [] some_limit set known inside = omega arith
window_lem limit window key start count buckets ((current, name) ∷ requests) some_limit set known
      (here, inside) =
    let width = effective_window window in
    let most = pos_part limit in
    elim (Bool-cases (name == key)) [
      | inl same ↦
          let is_key : name ≡ key = (eq_iff name key).0 same in
          let next : RateLimitBucket = record { window_start = start; count = suc count } in
          let buckets' = insert key next buckets in
          let served : serve limit window buckets current name ≡ (buckets', leb (suc count) most) =
            rw is_key (
              serve-counts limit window buckets current key some_limit
              ∙ count_request-open most width buckets current key start count set here known) in
          let known' : lookup_or zero_bucket key buckets' ≡ next =
            rw (lookup_or-insert zero_bucket key key next buckets, eq_refl key) refl in
          let rest =
            window_lem limit window key start (suc count) buckets' requests some_limit set known'
              inside in
          rw (served, same) (ground (arith, rest))
      | inr differs ↦
          let bucket = open_bucket width current (lookup_or zero_bucket name buckets) in
          let counted : RateLimitBucket = record bucket { count = suc bucket.count } in
          let buckets' = insert name counted buckets in
          let served : serve limit window buckets current name
              ≡ (buckets', leb (suc bucket.count) most) =
            serve-counts limit window buckets current name some_limit in
          let known' : lookup_or zero_bucket key buckets'
              ≡ record { window_start = start; count = count } =
            rw (lookup_or-insert zero_bucket name key counted buckets, differs) known in
          let rest =
            window_lem limit window key start count buckets' requests some_limit set known'
              inside in
          rw (served, differs) (ground (arith, rest))
    ]

-- From the request that opens a window on, and until the window ends, exactly the first `limit`
-- requests of a key pass, whatever other clients send in between.
pub window_admits :
    (limit window : ℤ) (key : String) (current : Time) (buckets : Map RateLimitBucket)
    (requests : List (Time × String))
    → leb_ℤ limit (pos 0) ≡ false
    → is_zero current ≡ false
    → open_bucket (effective_window window) current (lookup_or zero_bucket key buckets)
      ≡ record { window_start = current; count = 0 }
    → All (λ request. request.0 < current + effective_window window) requests
    → passed limit window key buckets ((current, key) ∷ requests)
      ≡ min (suc (asked key requests)) (pos_part limit)
unfolding passed count_request
window_admits limit window key current buckets requests some_limit set opens inside =
    let most = pos_part limit in
    let first : RateLimitBucket = record { window_start = current; count = 1 } in
    let buckets' = insert key first buckets in
    let served : serve limit window buckets current key ≡ (buckets', leb 1 most) =
      serve-counts limit window buckets current key some_limit ∙ rw (count_request, opens) refl in
    let known : lookup_or zero_bucket key buckets' ≡ first =
      rw (lookup_or-insert zero_bucket key key first buckets, eq_refl key) refl in
    let rest =
      window_lem limit window key current 1 buckets' requests some_limit set known inside in
    rw (served, eq_refl key) (ground (arith, rest))
