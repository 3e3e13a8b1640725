-- ===== src/Contracts/Feed.antt =====
-- contracts/feed/v1/feed.go. `Score` stands for float64.
use articleflow.Prelude.{String, Bool, List}
use articleflow.Go.Time.{Time}

pub record FeedItem (Score : Type 0) : Type 0 where
  pub article_id : String
  pub title : String
  pub summary : String
  pub source_name : String
  pub url : String
  pub tags : List String
  pub score : Score
  pub score_reasons : List String
  pub reaction : String
  pub saved : Bool
  pub published_at : Time
