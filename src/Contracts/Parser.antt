-- ===== src/Contracts/Parser.antt =====
-- contracts/parser/v1/parser.go
pub mod Laws
use articleflow.Prelude.{ℕ, String, Bool, List, Option, if◌then◌else◌}
use articleflow.Prelude.Int.{ℤ}
use articleflow.Go.Time.{Time}
use articleflow.Go.Text.{trim_space, is_empty}
use articleflow.Go.Result.{Result, ok, reject_if, ◌>>=◌, ◌>>◌}
use articleflow.Contracts.Query.{clamp_limit, clamp_offset}

abbrev pub status_queued : String
status_queued = "queued"

abbrev pub status_running : String
status_running = "running"

abbrev pub status_completed : String
status_completed = "completed"

abbrev pub status_failed : String
status_failed = "failed"

abbrev pub source_ok : String
source_ok = "ok"

abbrev pub source_empty : String
source_empty = "empty"

abbrev pub source_failed : String
source_failed = "failed"

pub record SearchQuery : Type 0 where
  pub text : String
  pub sources : List String
  pub tags : List String
  pub limit : ℤ
  pub offset : ℤ
  pub language : String
  pub from_date : Option Time
  pub to_date : Option Time

unfoldable pub normalize : SearchQuery → SearchQuery
normalize query = record query {
  text = trim_space query.text;
  limit = clamp_limit query.limit;
  offset = clamp_offset query.offset;
  language = if is_empty (trim_space query.language) then "ru" else query.language;
}

unfoldable pub validate : SearchQuery → Result (Unit {0})
unfolding normalize
validate query = do
  reject_if (is_empty (normalize query).text) "search query text is required"
  ok tt

pub record ArticleCandidate : Type 0 where
  pub source_name : String
  pub external_id : String
  pub url : String
  pub title : String
  pub summary : String
  pub content : String
  pub author : String
  pub tags : List String
  pub language : String
  pub published_at : Time

pub record SourceStats : Type 0 where
  pub source_name : String
  pub strategy : String
  pub status : String
  pub found_count : ℕ
  pub accepted_count : ℕ
  pub returned_count : ℕ
  pub published_count : ℕ
  pub filtered_count : ℕ
  pub error : String
  pub duration_ms : ℕ

pub record ParserSource : Type 0 where
  pub name : String
  pub display_name : String
  pub kind : String
  pub enabled : Bool
  pub searchable : Bool
  pub notes : String

pub record SearchResult : Type 0 where
  pub candidates : List ArticleCandidate
  pub source_stats : List SourceStats

pub record ParserJob : Type 0 where
  pub id : String
  pub query : SearchQuery
  pub status : String
  pub error : String
  pub candidates_count : ℕ
  pub candidates : List ArticleCandidate
  pub source_stats : List SourceStats
  pub created_at : Time
  pub updated_at : Time
