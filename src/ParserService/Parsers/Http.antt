-- ===== src/ParserService/Parsers/Http.antt =====
-- The requests of the parsers: what a GET gives, and the check of its status that the clients repeat.
use articleflow.Contracts.Parser.{ArticleCandidate}
use articleflow.ParserService.Parsers.Texts.{first_non_empty}
use articleflow.Go.Result.{ok, err, Result}
use articleflow.Contracts.Article.{Article}
use articleflow.Go.Decimal.{itoa}
use articleflow.Prelude.{[], ◌∷◌, none, leb, ◌||◌, ltb, if◌then◌else◌, some, Option, ℕ, String}
use articleflow.Go.Text.{cat}
use articleflow.Prelude.Int.{pos}

-- The status of a response, what the decoder of the library makes of its body, and the error of Close.
pub record SiteResponse (A : Type 0) : Type 0 where
  pub status : ℕ
  pub body : Result A
  pub close : Option String

-- get of the clients of vc and habr: the response of a status from 200 to 299.
unfoldable pub check_status :
    {A : Type 0} → String → Result (SiteResponse A) → Result (SiteResponse A)
unfolding cat itoa
check_status request_url (err e) = err e
check_status request_url (ok response) =
    if ltb response.status 200 || leb 300 response.status
    then err (cat "GET " (cat request_url (cat " returned status " (itoa (pos response.status)))))
    else ok response

-- The article of a body, where it is read, valid and closed without an error.
unfoldable pub read_article :
    {A : Type 0} → (A → Article × Result (Unit {0})) → SiteResponse A → Result Article
read_article parse response = elim response.body [
  | err e ↦ err e
  | ok page ↦ elim (parse page).1 [
    | err e ↦ err e
    | ok _ ↦ elim response.close [ some e ↦ err e | none ↦ ok (parse page).0 ]
  ]
]

-- The candidate made of an article that a client of vc or dzen has fetched.
unfoldable pub candidate_of_article : String → String → Article → ArticleCandidate
unfolding first_non_empty
candidate_of_article source_name language article = record {
  source_name = source_name;
  external_id = article.external_id;
  url = article.url;
  title = article.title;
  summary = article.summary;
  content = article.content;
  author = article.author;
  tags = article.tags;
  language = first_non_empty (article.language ∷ language ∷ []);
  published_at = article.published_at;
}
