-- ===== src/Contracts/Article.antt =====
-- contracts/article/v1/article.go
use articleflow.Prelude.{String, List, Option}
use articleflow.Prelude.Int.{ℤ}
use articleflow.Go.Time.{Time}
use articleflow.Go.Text.{trim_space, is_empty}
use articleflow.Go.Result.{Result, ok, reject_if, ◌>>◌}
use articleflow.Contracts.Query.{clamp_limit, clamp_offset}

pub record Article : Type 0 where
  pub id : String
  pub source_id : String
  pub source_name : String
  pub external_id : String
  pub url : String
  pub title : String
  pub summary : String
  pub content : String
  pub author : String
  pub tags : List String
  pub language : String
  pub published_at : Time
  pub parsed_at : Time

unfoldable pub validate_article : Article → Result (Unit {0})
validate_article article = do
  reject_if (is_empty (trim_space article.url)) "url is required"
  reject_if (is_empty (trim_space article.title)) "title is required"
  reject_if (is_empty (trim_space article.source_name)) "source name is required"
  ok tt

pub record ArticlePreview : Type 0 where
  pub id : String
  pub source_name : String
  pub url : String
  pub title : String
  pub summary : String
  pub tags : List String
  pub published_at : Time

pub record SearchQuery : Type 0 where
  pub text : String
  pub sources : List String
  pub tags : List String
  pub from_date : Option Time
  pub to_date : Option Time
  pub limit : ℤ
  pub offset : ℤ

unfoldable pub normalize : SearchQuery → SearchQuery
normalize query = record query {
  text = trim_space query.text;
  limit = clamp_limit query.limit;
  offset = clamp_offset query.offset;
}

unfoldable pub validate : SearchQuery → Result (Unit {0})
unfolding normalize
validate query = do
  reject_if (is_empty (normalize query).text) "search query text is required"
  ok tt
