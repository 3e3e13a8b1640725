-- ===== src/ParserService/Parsers/Page.antt =====
-- What the parsers read of a page in HTML (goquery), and what they make of an article.
use articleflow.ParserService.Parsers.Json.{Json}
use articleflow.Go.Text.{trim_space}
use articleflow.Prelude.{ℕ, some, Bool, none, ◌∷◌, Option, [], List, String}
use articleflow.Go.Time.{Time}

-- The texts of all scripts and of those that hold JSON-LD, the attribute of the first element that a
-- selector finds, and the text of that element; both are empty where there is none.
pub record Page : Type 0 where
  pub scripts : List String
  pub linked_data : List String
  pub attribute : String → String → String
  pub text_at : String → String

pub record StructuredArticle : Type 0 where
  pub title : String
  pub summary : String
  pub content : String
  pub url : String
  pub author : String
  pub tags : List String
  pub published_at : Time

abbrev pub no_article : StructuredArticle
no_article = record {
  title = "";
  summary = "";
  content = "";
  url = "";
  author = "";
  tags = [];
  published_at = 0;
}

unfoldable pub attr : Page → String → String → String
attr page selector name = trim_space (page.attribute selector name)

unfoldable pub meta : Page → String → String
unfolding attr
meta page selector = attr page selector "content"

-- EachWithBreak: the first script from which an article can be read.
unfoldable pub first_parsed : (String → Option StructuredArticle) → List String → StructuredArticle
first_parsed parse [] = no_article
first_parsed parse (script ∷ scripts) =
    let later = first_parsed parse scripts in
    elim (parse script) [ none ↦ later | some article ↦ article ]

-- What the code relies on of the libraries and of the clock.
pub record Tools (Number : Type 0) : Type 0 where
  pub decode : String → Option (Json Number)
  pub parse_time : String → Option Time
  pub is_positive : Number → Bool
  pub whole : Number → ℕ
  pub html_text : String → Option String
  pub without_query : String → Option String
  pub url_path : String → Option String
  pub digest : String → String
