-- ===== src/Gateway/RateLimit.antt =====
-- services/gateway-api/internal/transport/http/rate_limit.go. A request is its time and its key; an
-- answer says whether the next handler gets the request. The bucket of a key counts its requests
-- since the window began. net.SplitHostPort is the argument `split_host_port`.
pub mod Laws
mod Tests
use articleflow.Prelude.{
  ◌||◌, ◌&&◌, if◌then◌else◌, ◌==◌, true, false, [], ◌∷◌, String, Bool, List, not, ◌+◌, ltb, leb,
  eqb, ℕ, Option, none, some, suc,
}
use articleflow.Prelude.Int.{ℤ, pos, pos_part, leb_ℤ}
use articleflow.Go.Time.{Time, is_zero}
use articleflow.Go.Result.{Result, ok, err}
use articleflow.Go.Text.{trim_space, is_empty, before_separator}
use articleflow.Go.Map.{Map, lookup_or, insert}

pub record RateLimitBucket : Type 0 where
  pub window_start : Time
  pub count : ℕ

abbrev pub zero_bucket : RateLimitBucket
zero_bucket = record { window_start = 0; count = 0 }

-- time.Minute where no window is given.
unfoldable pub effective_window : ℤ → ℕ
effective_window window = if leb_ℤ window (pos 0) then 60000000000 else pos_part window

unfoldable pub client_ip : (String → Result (String × String)) → String → String → String
client_ip split_host_port forwarded_for remote_addr =
    let forwarded = trim_space forwarded_for in
    if not (is_empty forwarded)
    then elim (before_separator "," forwarded) [ some first ↦ trim_space first | none ↦ forwarded ]
    else elim (split_host_port remote_addr) [
      | err e ↦ trim_space remote_addr
      | ok (host, port) ↦ if is_empty host then trim_space remote_addr else host
    ]

-- The bucket that a request at `current` is counted in.
unfoldable pub open_bucket : ℕ → Time → RateLimitBucket → RateLimitBucket
open_bucket window current bucket =
    if is_zero bucket.window_start || leb (bucket.window_start + window) current
    then record { window_start = current; count = 0 }
    else bucket

-- The handler, where there is a limit.
unfoldable pub count_request :
    ℕ → ℕ → Map RateLimitBucket → Time → String → Map RateLimitBucket × Bool
unfolding open_bucket
count_request limit window buckets current key =
    let bucket = open_bucket window current (lookup_or zero_bucket key buckets) in
    let counted : RateLimitBucket = record bucket { count = suc bucket.count } in
    (insert key counted buckets, leb counted.count limit)

-- Without a limit the middleware is the next handler.
unfoldable pub serve : ℤ → ℤ → Map RateLimitBucket → Time → String → Map RateLimitBucket × Bool
unfolding count_request effective_window
serve limit window buckets current key =
    if leb_ℤ limit (pos 0)
    then (buckets, true)
    else count_request (pos_part limit) (effective_window window) buckets current key
