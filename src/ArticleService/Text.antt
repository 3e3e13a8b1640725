-- ===== src/ArticleService/Text.antt =====
-- The texts of services/article-service/internal/usecase/ingest.go: search terms, tags, sources.
use articleflow.Prelude.{
  ◌||◌, ltb, ◌&&◌, if◌then◌else◌, ◌==◌, any, true, false, [], ◌∷◌, String, Bool, List,
}
use articleflow.Go.Text.{
  trim_space, to_lower, is_empty, trim_cutset, trim_suffix, fields, contains, rune_count,
}
use articleflow.Go.Map.{Set, insert, member}
use articleflow.Contracts.Article.{Article}
use articleflow.Dedup.{dedup}

-- strings.ToLower(strings.TrimSpace(source))
unfoldable pub clean_source : String → String
clean_source source = to_lower (trim_space source)

unfoldable pub clean_source_order : List String → List String
unfolding dedup clean_source
clean_source_order sources = dedup clean_source (λ source. source) is_empty sources

abbrev stop_words : List String
stop_words =
    "и" ∷ "в" ∷ "во" ∷ "на" ∷ "по" ∷ "с" ∷ "со" ∷ "о" ∷ "об" ∷ "от" ∷ "до" ∷ "для" ∷ "из" ∷ "за"
    ∷ "к" ∷ "ко" ∷ "a" ∷ "an" ∷ "the" ∷ "of" ∷ "to" ∷ "in" ∷ "on" ∷ "for" ∷ "and" ∷ []

unfoldable pub is_search_stop_word : String → Bool
is_search_stop_word word = any (λ w. w == word) stop_words

-- The loop of searchTerms.
unfoldable pub keep_terms : List String → List String
unfolding is_search_stop_word
keep_terms [] = []
keep_terms (raw ∷ rest) =
    let field = trim_cutset raw "\"'.,:;!?()[]{}<>" in
    let later = keep_terms rest in
    if ltb (rune_count field) 2 || is_search_stop_word field then later else field ∷ later

unfoldable pub search_terms : String → List String
unfolding keep_terms
search_terms text = keep_terms (fields (to_lower text))

-- The loop of matchesAllTerms.
unfoldable pub contains_all : String → List String → Bool
contains_all text [] = true
contains_all text (term ∷ terms) = contains text term && contains_all text terms

unfoldable pub matches_all_terms : String → List String → Bool
unfolding contains_all
matches_all_terms text [] = false
matches_all_terms text (term ∷ terms) = contains_all text (term ∷ terms)

unfoldable pub normalize_tag : String → String
normalize_tag tag = trim_space (trim_suffix (to_lower (trim_space tag)) "*")

-- The loop of sourceSet and tagSet.
unfoldable pub set_of : (String → String) → Set → List String → Set
set_of clean set [] = set
set_of clean set (raw ∷ rest) =
    let text = clean raw in set_of clean (if is_empty text then set else insert text true set) rest

unfoldable pub source_set : List String → Set
unfolding set_of clean_source
source_set sources = set_of clean_source [] sources

unfoldable pub tag_set : List String → Set
unfolding set_of normalize_tag
tag_set tags = set_of normalize_tag [] tags

unfoldable pub article_has_any_tag : Article → Set → Bool
unfolding normalize_tag
article_has_any_tag article tags = any (λ tag. member (normalize_tag tag) tags) article.tags
