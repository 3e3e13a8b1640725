-- ===== src/Gateway/Sources.antt =====
-- services/gateway-api/internal/transport/http: search_sources_handler.go, article_handler.go and
-- me_handler.go. `body` is the value of `enabled` that the JSON decoder reads, if it can; what a
-- service behind the gateway answers is an argument.
use articleflow.Go.Result.{ok, err, Result}
use articleflow.Contracts.User.{UserProfile}
use articleflow.Contracts.Parser.{ParserSource}
use articleflow.Go.Map.{Map}
use articleflow.Prelude.{◌∷◌, some, none, ◌==◌, not, if◌then◌else◌, [], List, Bool, Option, String}
use articleflow.Contracts.Article.{Article}
use articleflow.Gateway.Http.{
  reply, method_not_allowed, failure, Response, Request, query_value, user_id_from_request,
}
use articleflow.Gateway.Searches.{path_tail}
use articleflow.Go.Text.{is_empty, trim_space}

-- What the parser service does with its sources for the gateway.
pub record ParserSourceClient : Type 0 where
  pub list_sources : Result (List ParserSource)
  pub set_source_enabled : String → Bool → Result (Option ParserSource)

unfoldable pub update_search_source :
    ParserSourceClient → Request → Option Bool → Response (List ParserSource)
unfolding path_tail
update_search_source client request body = elim (path_tail "/api/v1/search/sources/" request.path) [
  | none ↦ failure 400 "source name is required"
  | some name ↦ elim body [
    | none ↦ failure 400 "invalid json body"
    | some enabled ↦ elim (client.set_source_enabled name enabled) [
      | err _ ↦ failure 502 "parser source update failed"
      | ok none ↦ failure 404 "source not found"
      | ok (some source) ↦ reply 200 (source ∷ [])
    ]
  ]
]

unfoldable pub handle_search_sources :
    ParserSourceClient → Request → Option Bool → Response (List ParserSource)
unfolding update_search_source
handle_search_sources client request body =
    if request.method == "GET"
    then elim client.list_sources [
      | err _ ↦ failure 502 "parser sources failed"
      | ok sources ↦ reply 200 sources
    ]
    else if request.method == "PATCH"
    then update_search_source client request body
    else method_not_allowed

unfoldable pub handle_article :
    (String → Option Article) → Map (List String) → Request → Response Article
unfolding query_value
handle_article get_by_id values request =
    let id = trim_space (query_value values "id") in
    if not (request.method == "GET")
    then failure 405 ""
    else if is_empty id
    then failure 400 "id is required"
    else elim (get_by_id id) [
      | none ↦ failure 404 "article not found"
      | some article ↦ reply 200 article
    ]

-- The profile of a user whom no service keeps.
abbrev pub bare_profile : String → UserProfile
bare_profile user_id = record { id = user_id; email = ""; interests = []; created_at = 0 }

unfoldable pub handle_me :
    (String → Map (List String))
    → Option (String → Result UserProfile)
    → Request
    → Response UserProfile
unfolding user_id_from_request
handle_me values_of provider request =
    let user_id = user_id_from_request values_of request in
    if not (request.method == "GET")
    then method_not_allowed
    else if is_empty user_id
    then failure 401 "user session is required"
    else elim provider [
      | none ↦ reply 200 (bare_profile user_id)
      | some ensure_user_profile ↦ elim (ensure_user_profile user_id) [
        | err _ ↦ failure 502 "user profile failed"
        | ok profile ↦ reply 200 profile
      ]
    ]
