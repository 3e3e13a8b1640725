-- ===== src/Gateway/Http.antt =====
-- services/gateway-api/internal/transport/http: requests and responses, session.go, and the CORS and
-- session wrappers of router.go. `values_of` stands for net/url's parse of the raw query. A body in
-- JSON is a value: what the decoder makes of it is an argument of the handlers.
pub mod Laws
use articleflow.Go.Text.{cat, trim_space, is_empty}
use articleflow.Prelude.{
  not, none, if◌then◌else◌, ◌∷◌, [], ◌==◌, some, List, Bool, ℕ, Option, String,
}
use articleflow.Go.Map.{lookup_or, Map}

-- What a handler reads of the request; `context_user_id` is the value that the session put there.
pub record Request : Type 0 where
  pub method : String
  pub path : String
  pub raw_query : String
  pub headers : Map String
  pub cookies : Map String
  pub context_user_id : Option String

-- A response in JSON or http.Error, with its status.
pub data Response (A : Type 0) : Type 0 where
  reply : ℕ → A → Response A
  failure : ℕ → String → Response A

unfoldable pub status_of : {A : Type 0} → Response A → ℕ
status_of (reply status _) = status
status_of (failure status _) = status

abbrev pub method_not_allowed : {A : Type 0} → Response A
method_not_allowed = failure 405 "method not allowed"

-- values[key] of net/url
abbrev pub query_values : Map (List String) → String → List String
query_values values key = lookup_or [] key values

-- values.Get(key) of net/url
unfoldable pub query_value : Map (List String) → String → String
query_value values key = elim (query_values values key) [ [] ↦ "" | value ∷ _ ↦ value ]

abbrev pub header : Request → String → String
header request name = lookup_or "" name request.headers

unfoldable pub context_with_user_id : Request → String → Request
context_with_user_id request user_id = record request {
  context_user_id = some (trim_space user_id);
}

unfoldable pub user_id_from_request : (String → Map (List String)) → Request → String
unfolding query_value
user_id_from_request values_of request =
    let from_context : String = elim request.context_user_id [ none ↦ "" | some id ↦ id ] in
    let from_header = header request "X-Articleflow-User-ID" in
    let from_query = query_value (values_of request.raw_query) "user_id" in
    if not (is_empty (trim_space from_context))
    then trim_space from_context
    else if not (is_empty (trim_space from_header))
    then trim_space from_header
    else trim_space from_query

abbrev pub user_id_cookie_name : String
user_id_cookie_name = "articleflow_user_id"

-- The user id that the middleware finds or takes: `anonymous` is what generateAnonymousUserID returns.
unfoldable pub session_user_id : String → Request → String
session_user_id anonymous request =
    let from_header = trim_space (header request "X-Articleflow-User-ID") in
    let from_cookie = trim_space (lookup_or "" user_id_cookie_name request.cookies) in
    if not (is_empty from_header)
    then from_header
    else if not (is_empty from_cookie)
    then from_cookie
    else anonymous

-- The cookie that the response sets, and the request that the next handler gets.
unfoldable pub open_session : String → Request → String × Request
unfolding session_user_id context_with_user_id
open_session anonymous request = (
  session_user_id anonymous request,
  context_with_user_id request (session_user_id anonymous request),
)

-- generateAnonymousUserID: `random` is the hexadecimal text of the random bytes, if there are any.
unfoldable pub generate_anonymous_user_id : Option String → String
unfolding cat
generate_anonymous_user_id random = elim random [
  | none ↦ "anon_local"
  | some payload ↦ cat "anon_" payload
]

-- Whether withCORS answers by itself, with no content, and the origin that it allows.
unfoldable pub with_cors : Request → Bool × Option String
with_cors request = (
  request.method == "OPTIONS",
  if is_empty (header request "Origin") then none else some (header request "Origin"),
)
