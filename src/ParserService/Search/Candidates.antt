-- ===== src/ParserService/Search/Candidates.antt =====
-- services/parser-service/internal/search/search.go: one candidate, its form, its keys and its score.
-- net/url is the argument `urls`, unicode.IsLetter and IsDigit are `is_word`, SHA-1 is `digest`.
use articleflow.Prelude.{
  ℕ, ◌||◌, ltb, if◌then◌else◌, ◌==◌, any, true, [], ◌∷◌, String, Bool, List, not, ◌++◌, length, ◌+◌,
}
use Prim.Native.Char.{Char}
use articleflow.Go.Time.{is_zero, before_bound, after_bound}
use articleflow.Go.Result.{Result, ok, err}
use articleflow.Go.Text.{
  trim_space, to_lower, is_empty, fields_func, contains, rune_count, trim_prefix, trim_right_cutset,
  has_prefix, join, cat,
}
use articleflow.Go.Map.{Map, Set, insert, member}
use articleflow.Contracts.Parser.{ArticleCandidate, SearchQuery}
use articleflow.Dedup.{dedup}

-- url.URL; `user` stands for the fields that the code leaves alone.
pub record Url : Type 0 where
  pub scheme : String
  pub user : String
  pub host : String
  pub path : String
  pub raw_query : String
  pub fragment : String

-- url.Parse, (*URL).String, (*URL).Query and Values.Encode.
pub record UrlPackage : Type 0 where
  pub parse : String → Result Url
  pub print : Url → String
  pub values : String → Map (List String)
  pub encode : Map (List String) → String

unfoldable pub canonical_host : String → String
canonical_host host = trim_prefix (trim_prefix host "www.") "m."

unfoldable pub is_tracking : String → Bool
is_tracking key =
    let lower = to_lower key in
    has_prefix lower "utm_" || lower == "yclid" || lower == "fbclid" || lower == "gclid"

-- The loop that deletes keys of the query.
unfoldable pub drop_tracking : Map (List String) → Map (List String)
unfolding is_tracking
drop_tracking [] = []
drop_tracking ((key, values) ∷ entries) =
    let rest = drop_tracking entries in if is_tracking key then rest else (key, values) ∷ rest

unfoldable pub normalize_candidate_url : UrlPackage → String → String
unfolding canonical_host drop_tracking
normalize_candidate_url urls raw = elim (urls.parse (trim_space raw)) [
  | err e ↦ trim_space raw
  | ok parsed ↦
      if is_empty parsed.scheme || is_empty parsed.host
      then trim_space raw
      else urls.print (record {
        scheme = to_lower parsed.scheme;
        user = parsed.user;
        host = canonical_host (to_lower parsed.host);
        path = if parsed.path == "/" then parsed.path else trim_right_cutset parsed.path "/";
        raw_query = urls.encode (drop_tracking (urls.values parsed.raw_query));
        fragment = "";
      })
]

unfoldable pub clean_candidate_tags : List String → List String
unfolding dedup
clean_candidate_tags tags = dedup trim_space to_lower is_empty tags

unfoldable pub stable_candidate_id : (String → String) → String → String
stable_candidate_id digest value = cat "candidate-" (digest value)

-- The text, or the other one where it is empty.
abbrev or_else : String → String → String
or_else text other = if is_empty text then other else text

unfoldable pub normalize_candidate :
    UrlPackage → (String → String) → ArticleCandidate → String → SearchQuery → ArticleCandidate
unfolding normalize_candidate_url clean_candidate_tags stable_candidate_id
normalize_candidate urls digest candidate source query =
    let url = normalize_candidate_url urls candidate.url in
    record {
      source_name = or_else (trim_space candidate.source_name) (trim_space source);
      external_id = or_else (trim_space candidate.external_id) (stable_candidate_id digest url);
      url = url;
      title = trim_space candidate.title;
      summary = trim_space candidate.summary;
      content = trim_space candidate.content;
      author = trim_space candidate.author;
      tags = clean_candidate_tags candidate.tags;
      language = or_else (trim_space candidate.language) query.language;
      published_at = candidate.published_at;
    }

unfoldable pub candidate_within_date_range : ArticleCandidate → SearchQuery → Bool
candidate_within_date_range candidate query =
    is_zero candidate.published_at
    || not (
        before_bound candidate.published_at query.from_date
        || after_bound candidate.published_at query.to_date)

unfoldable pub keep_long : List String → List String
keep_long [] = []
keep_long (raw ∷ raws) =
    let rest = keep_long raws in
    let term = trim_space raw in if ltb (rune_count term) 3 then rest else term ∷ rest

unfoldable pub candidate_title_dedup_key : (Char → Bool) → String → String
unfolding keep_long
candidate_title_dedup_key is_word title =
    let normalized = keep_long (fields_func (λ c. not (is_word c)) (to_lower title)) in
    if ltb (length normalized) 4 then "" else join normalized " "

unfoldable pub candidate_dedup_keys : (Char → Bool) → ArticleCandidate → List String
unfolding candidate_title_dedup_key
candidate_dedup_keys is_word candidate =
    let title_key = candidate_title_dedup_key is_word candidate.title in
    (if is_empty candidate.url then [] else cat "url:" (to_lower candidate.url) ∷ [])
    ++ (if is_empty candidate.source_name || is_empty candidate.external_id
        then []
        else (cat "source:"
              (cat (to_lower candidate.source_name) (cat ":" (to_lower candidate.external_id)))
            ∷ []))
    ++ (if is_empty title_key then [] else cat "title:" title_key ∷ [])

unfoldable pub has_seen_candidate : Set → List String → Bool
has_seen_candidate seen keys = any (λ key. member key seen) keys

unfoldable pub mark_seen_candidate : Set → List String → Set
mark_seen_candidate seen [] = seen
mark_seen_candidate seen (key ∷ keys) = mark_seen_candidate (insert key true seen) keys

unfoldable pub query_terms : (Char → Bool) → String → List String
unfolding dedup
query_terms is_word text =
    dedup trim_space (λ term. term) (λ term. ltb (rune_count term) 2)
      (fields_func (λ c. not (is_word c)) (to_lower text))

unfoldable pub term_score : ArticleCandidate → String → ℕ
term_score candidate term =
    (if contains (to_lower candidate.title) term then 4 else 0)
    + (if contains (to_lower (join candidate.tags " ")) term then 3 else 0)
    + (if contains (to_lower candidate.summary) term then 2 else 0)
    + (if contains (to_lower candidate.content) term then 1 else 0)
    + (if contains (to_lower candidate.url) term then 1 else 0)

-- The loop of candidateRelevanceScore.
unfoldable pub score_terms : ArticleCandidate → List String → ℕ
unfolding term_score
score_terms candidate [] = 0
score_terms candidate (term ∷ terms) = term_score candidate term + score_terms candidate terms

unfoldable pub candidate_relevance_score : (Char → Bool) → ArticleCandidate → String → ℕ
unfolding query_terms score_terms
candidate_relevance_score is_word candidate text = elim (query_terms is_word text) [
  | [] ↦ 1
  | term ∷ terms ↦ score_terms candidate (term ∷ terms)
]
