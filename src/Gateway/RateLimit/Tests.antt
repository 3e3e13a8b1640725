-- ===== src/Gateway/RateLimit/Tests.antt =====
-- Runs of the rate limiter.
use articleflow.Go.Text.{has_prefix, trim_space, before_separator}
use articleflow.Go.Map.{lookup}
use articleflow.Prelude.{arith, ◌≡◌, refl, min, [], ◌∷◌, String}
use articleflow.Prelude.Int.{pos}
use articleflow.Go.Result.{Result, ok}
use articleflow.Gateway.RateLimit.{
  open_bucket, before_separator, effective_window, trim_space, client_ip,
}
use articleflow.Gateway.RateLimit.Laws.{passed, window_admits}

abbrev split : String → Result (String × String)
split address = ok ("10.0.0.1", "80")

forwarded_test : client_ip split " 1.2.3.4 , 5.6.7.8" "10.0.0.1:80" ≡ "1.2.3.4"
unfolding client_ip trim_space before_separator has_prefix
forwarded_test = refl

remote_test : client_ip split "" "10.0.0.1:80" ≡ "10.0.0.1"
unfolding client_ip trim_space before_separator
remote_test = refl

window_admits_example :
    passed (pos 2) (pos 100) "a" [] ((7, "a") ∷ (8, "b") ∷ (9, "a") ∷ (10, "a") ∷ []) ≡ min 3 2
unfolding effective_window open_bucket lookup
window_admits_example =
    window_admits (pos 2) (pos 100) "a" 7 [] ((8, "b") ∷ (9, "a") ∷ (10, "a") ∷ []) refl refl refl
      (omega arith, (omega arith, (omega arith, tt)))
