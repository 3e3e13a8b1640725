-- ===== src/ParserService/Parsers/HabrClient/Laws.antt =====
-- The attempts of a request.
use articleflow.Prelude.Int.{pos, pos_part, ltb_ℤ}
use articleflow.Go.Result.{Result-cases}
use articleflow.ParserService.Parsers.HabrClient.{
  ok, err, Result, get_from, HabrClient, get_habr, Attempt,
}
use articleflow.Prelude.{
  ◌≤◌, zero, refl, ◌∙◌, inr, inl, ◌&&◌, arith, subst, Bool-cases, suc, ◌+◌, ◌<◌, none, ◌≡◌, ℕ,
  String,
}
use articleflow.ParserService.Parsers.Http.{SiteResponse, check_status}

-- An attempt that nothing but its response ends: no wait is cancelled, and the request can be made.
pub record IsQuiet {A : Type 0} (attempt : Attempt A) : Type 0 where
  pub wait_done : attempt.wait ≡ none
  pub request_made : attempt.request ≡ none
  pub not_cancelled : attempt.cancelled ≡ none

module _ {A : Type 0} (client : HabrClient) (url : String) (attempts : ℕ → Attempt A) where
  get_from_retries :
      (attempt left : ℕ) (last : Result (SiteResponse A)) (e : String)
      → IsQuiet (attempts attempt)
      → check_status url (attempts attempt).response ≡ err e
      → get_from client url attempts attempt (suc left) last
        ≡ get_from client url attempts (suc attempt) left (err e)
  unfolding get_from
  get_from_retries attempt left last e quiet failed =
      elim (Bool-cases
        (ltb_ℤ (pos attempt) client.max_attempts && ltb_ℤ (pos 0) client.retry_delay)) [
          | inl delay ↦
              rw (get_from, quiet.wait_done, quiet.request_made, failed, delay, quiet.not_cancelled)
                refl
          | inr at_once ↦ rw (get_from, quiet.wait_done, quiet.request_made, failed, at_once) refl
        ]

  -- What attempt `k` gives the caller.
  abbrev pub Gives : ℕ → SiteResponse A → Type 0
  Gives k response = check_status url (attempts k).response ≡ ok response

  get_from_lem :
      (n attempt left : ℕ) (last : Result (SiteResponse A)) (response : SiteResponse A)
      → n < left
      → ((i : ℕ) → IsQuiet (attempts i))
      → Gives (attempt + n) response
      → (k : ℕ) × (first : SiteResponse A) × (k ≤ attempt + n)
        × Gives k first
        × (get_from client url attempts attempt left last ≡ ok first)
  unfolding get_from
  get_from_lem n attempt zero last response early quiet there = absurd (omega arith)
  get_from_lem zero attempt (suc left) last response early quiet there =
      let now : Gives attempt response =
        let same : attempt + zero ≡ attempt = omega arith in
        subst (λ i. Gives i response) same there in
      (
        attempt,
        response,
        omega arith,
        now,
        rw (get_from, (quiet attempt).wait_done, (quiet attempt).request_made, now) refl,
      )
  get_from_lem (suc n) attempt (suc left) last response early quiet there =
      elim (Result-cases (check_status url (attempts attempt).response)) [
        | inl (first, found) ↦ (
          attempt,
          first,
          omega arith,
          found,
          rw (get_from, (quiet attempt).wait_done, (quiet attempt).request_made, found) refl,
        )
        | inr (e, failed) ↦
            let same : attempt + suc n ≡ suc attempt + n = omega arith in
            let (k, first, before, given, returned) =
              get_from_lem n (suc attempt) left (err e) response (omega arith) quiet
                (subst (λ i. Gives i response) same there) in
            (
              k,
              first,
              omega (arith, before),
              given,
              get_from_retries attempt left last e (quiet attempt) failed ∙ returned,
            )
      ]

-- If the waits of a request end, its requests can be made, and one of its attempts (they are counted
-- from 1) has a response, then get returns the response of that attempt or of an earlier one.
pub get_habr_lem :
    {A : Type 0} (client : HabrClient) (url : String) (attempts : ℕ → Attempt A) (n : ℕ)
    (response : SiteResponse A)
    → n < pos_part client.max_attempts
    → ((i : ℕ) → IsQuiet (attempts i))
    → Gives client url attempts (suc n) response
    → (k : ℕ) × (first : SiteResponse A) × (k ≤ suc n)
      × Gives client url attempts k first
      × (get_habr client url attempts ≡ ok first)
unfolding get_habr
get_habr_lem client url attempts n response early quiet there =
    let same : suc n ≡ 1 + n = omega arith in
    let (k, first, before, given, returned) =
      get_from_lem client url attempts n 1 (pos_part client.max_attempts) (err "no attempt")
        response early quiet (subst (λ i. Gives client url attempts i response) same there) in
    (k, first, omega (arith, before), given, returned)
