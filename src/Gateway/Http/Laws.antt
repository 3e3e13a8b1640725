-- ===== src/Gateway/Http/Laws.antt =====
-- The user that a handler sees behind the session.
use text.Mathlib.TextLemmas.{cons-append}
use articleflow.Go.Text.Laws.{is_empty-trim_func, trim_space_idem}
use articleflow.Prelude.{◌∙◌, ap, refl, none, arith, some, false, ◌≡◌, Option, List, String}
use articleflow.Go.Text.{trim_space, cat, is_space}
use articleflow.Gateway.Http.{
  user_id_cookie_name, lookup_or, context_with_user_id, header, session_user_id, is_empty, Map,
  user_id_from_request, cat, open_session, generate_anonymous_user_id, Request,
}

is_empty-generate_anonymous_user_id :
    (random : Option String) → is_empty (trim_space (generate_anonymous_user_id random)) ≡ false
unfolding generate_anonymous_user_id cat trim_space is_space
is_empty-generate_anonymous_user_id none = refl
is_empty-generate_anonymous_user_id (some payload) =
    ap (λ id. is_empty (trim_space id)) (cons-append "a" "non_" payload)
    ∙ is_empty-trim_func is_space "a" (cat "non_" payload) refl

session_user_id_filled :
    (random : Option String) (request : Request)
    → is_empty (trim_space (session_user_id (generate_anonymous_user_id random) request)) ≡ false
unfolding session_user_id
session_user_id_filled random request = ground (
  arith,
  is_empty-generate_anonymous_user_id random,
  trim_space_idem (header request "X-Articleflow-User-ID"),
  trim_space_idem (lookup_or "" user_id_cookie_name request.cookies),
)

-- A handler behind the session sees the user whose id the response sets as the cookie, and that id
-- is not blank: neither the header nor the query can name another one after that.
pub user_id-open_session :
    (values_of : String → Map (List String)) (random : Option String) (request : Request)
    → let (cookie, request') = open_session (generate_anonymous_user_id random) request in
      (user_id_from_request values_of request' ≡ trim_space cookie)
      × (is_empty (trim_space cookie) ≡ false)
unfolding open_session user_id_from_request
user_id-open_session values_of random request =
    let filled = session_user_id_filled random request in
    let twice = trim_space_idem (session_user_id (generate_anonymous_user_id random) request) in
    (rw (open_session, context_with_user_id, twice, filled) refl, filled)
