-- ===== src/Gateway/Reactions.antt =====
-- services/gateway-api: internal/transport/http/reaction_handler.go and internal/reactions. `body` is
-- what the JSON decoder makes of the request's body, if anything.
pub mod Laws
mod Tests
use articleflow.Go.Map.{Map}
use articleflow.Go.Result.{reject_if, ◌>>◌, ok, err, Result}
use articleflow.Go.Text.{trim_space, is_empty, cat}
use articleflow.Prelude.{
  true, ◌∷◌, some, none, [], not, Option, List, ◌||◌, ◌==◌, Bool, if◌then◌else◌, String,
}
use articleflow.Go.Time.{Time}
use articleflow.Gateway.Http.{
  reply, failure, method_not_allowed, Response, user_id_from_request, Request,
}
use articleflow.Contracts.User.{
  reaction_open, reaction_save, reaction_skip, reaction_dislike, reaction_like, ReactionType,
  UserReaction,
}
use articleflow.Contracts.Events.{
  topic_user_reaction_created, UserReactionCreatedEvent, validate_reaction,
}

pub record ReactionRequest : Type 0 where
  pub user_id : String
  pub article_id : String
  pub type : String

abbrev pub is_allowed_reaction_type : ReactionType → Bool
is_allowed_reaction_type type =
    type == reaction_like
    || type == reaction_dislike
    || type == reaction_skip
    || type == reaction_save
    || type == reaction_open

-- The user of the body, or else that of the request.
unfoldable pub reaction_user : ReactionRequest → String → String
reaction_user request fallback_user_id =
    if is_empty (trim_space request.user_id)
    then trim_space fallback_user_id
    else trim_space request.user_id

abbrev pub cleaned_reaction : ReactionRequest → Time → String → UserReaction
cleaned_reaction request now fallback_user_id = record {
  user_id = reaction_user request fallback_user_id;
  article_id = trim_space request.article_id;
  type = trim_space request.type;
  created_at = now;
}

unfoldable pub to_reaction : ReactionRequest → Time → String → Result UserReaction
to_reaction request now fallback_user_id =
    let reaction = cleaned_reaction request now fallback_user_id in
    do
      reject_if (is_empty reaction.user_id) "user_id is required"
      reject_if (is_empty reaction.article_id) "article_id is required"
      reject_if (not (is_allowed_reaction_type reaction.type)) "unsupported reaction type"
      ok reaction

abbrev pub event_of_reaction : UserReaction → UserReactionCreatedEvent
event_of_reaction reaction = record {
  user_id = reaction.user_id;
  article_id = reaction.article_id;
  type = reaction.type;
  created_at = reaction.created_at;
}

pub record ReactionMessage : Type 0 where
  pub topic : String
  pub key : String
  pub value : String

-- Record of the publisher: the message that it hands to the producer, or an error. `marshal` is
-- the JSON encoder.
unfoldable pub record_message :
    (UserReactionCreatedEvent → Result String) → UserReaction → Result ReactionMessage
unfolding cat
record_message marshal reaction = elim (validate_reaction (event_of_reaction reaction)) [
  | err e ↦ err e
  | ok _ ↦ elim (marshal (event_of_reaction reaction)) [
    | err e ↦ err e
    | ok payload ↦ ok (record {
      topic = topic_user_reaction_created;
      key = cat reaction.user_id (cat ":" reaction.article_id);
      value = payload;
    })
  ]
]

-- The response, with the reactions that the recorder got; `recorder` gives its error, if any.
unfoldable pub handle_reaction :
    (String → Map (List String))
    → (UserReaction → Option String)
    → Time
    → Request
    → Option ReactionRequest
    → Response Bool × List UserReaction
unfolding to_reaction user_id_from_request
handle_reaction values_of recorder now request body =
    if not (request.method == "POST") then (method_not_allowed, []) else elim body [
      | none ↦ (failure 400 "invalid json body", [])
      | some payload ↦ elim (to_reaction payload now (user_id_from_request values_of request)) [
        | err e ↦ (failure 400 e, [])
        | ok reaction ↦ elim (recorder reaction) [
          | some _ ↦ (failure 502 "reaction failed", reaction ∷ [])
          | none ↦ (reply 202 true, reaction ∷ [])
        ]
      ]
    ]
