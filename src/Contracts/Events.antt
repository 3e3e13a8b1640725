-- ===== src/Contracts/Events.antt =====
-- contracts/events/v1/events.go
pub mod Laws
use articleflow.Prelude.{List, String}
use articleflow.Go.Time.{Time, is_zero}
use articleflow.Go.Text.{trim_space, is_empty}
use articleflow.Go.Result.{Result, ok, reject_if, ◌>>=◌, ◌>>◌}

abbrev pub topic_article_discovered : String
topic_article_discovered = "article.discovered.v1"

abbrev pub topic_article_created : String
topic_article_created = "article.created.v1"

abbrev pub topic_user_reaction_created : String
topic_user_reaction_created = "user.reaction.created.v1"

abbrev pub topic_feed_item_scored : String
topic_feed_item_scored = "feed.item.scored.v1"

abbrev pub topic_parser_job_failed : String
topic_parser_job_failed = "parser.job.failed.v1"

pub record ArticleDiscoveredEvent : Type 0 where
  pub source_name : String
  pub external_id : String
  pub url : String
  pub title : String
  pub summary : String
  pub content : String
  pub author : String
  pub tags : List String
  pub language : String
  pub published_at : Time
  pub discovered_at : Time

unfoldable pub validate_discovered : ArticleDiscoveredEvent → Result (Unit {0})
validate_discovered event = do
  reject_if (is_empty (trim_space event.source_name)) "source name is required"
  reject_if (is_empty (trim_space event.external_id)) "external id is required"
  reject_if (is_empty (trim_space event.url)) "url is required"
  reject_if (is_empty (trim_space event.title)) "title is required"
  reject_if (is_zero event.discovered_at) "discovered at is required"
  ok tt

pub record ArticleCreatedEvent : Type 0 where
  pub article_id : String
  pub source_name : String
  pub external_id : String
  pub url : String
  pub title : String
  pub created_at : Time
  pub published_at : Time

pub record UserReactionCreatedEvent : Type 0 where
  pub user_id : String
  pub article_id : String
  pub type : String
  pub created_at : Time

unfoldable pub validate_reaction : UserReactionCreatedEvent → Result (Unit {0})
validate_reaction event = do
  reject_if (is_empty (trim_space event.user_id)) "user id is required"
  reject_if (is_empty (trim_space event.article_id)) "article id is required"
  reject_if (is_empty (trim_space event.type)) "reaction type is required"
  reject_if (is_zero event.created_at) "created at is required"
  ok tt

pub record ParserJobFailedEvent : Type 0 where
  pub job_id : String
  pub source_name : String
  pub query : String
  pub error : String
  pub failed_at : Time

pub record FeedItemScoredEvent (Score : Type 0) : Type 0 where
  pub article_id : String
  pub source_name : String
  pub url : String
  pub title : String
  pub summary : String
  pub tags : List String
  pub score : Score
  pub score_reasons : List String
  pub published_at : Time
  pub scored_at : Time

unfoldable pub validate_scored : {Score : Type 0} → FeedItemScoredEvent Score → Result (Unit {0})
validate_scored event = do
  reject_if (is_empty (trim_space event.article_id)) "article id is required"
  reject_if (is_empty (trim_space event.source_name)) "source name is required"
  reject_if (is_empty (trim_space event.url)) "url is required"
  reject_if (is_empty (trim_space event.title)) "title is required"
  reject_if (is_zero event.scored_at) "scored at is required"
  ok tt
