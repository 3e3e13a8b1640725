-- ===== src/ParserService/Parsers/Dzen/Laws.antt =====
-- What the search of a decoded document finds.
use articleflow.Prelude.{none, ◌==◌, true, inr, ◌≡◌, inl, some, Option, Bool-cases}
use articleflow.ParserService.Parsers.Json.{
  null, boolean, number, text, array, object, no_items, item, no_fields, field, Json, Items, Fields,
  get_field,
}
use articleflow.ParserService.Parsers.Dzen.{
  find_dzen_node, search_items, search_fields, search_graph, is_article_type, first_found, graph_or,
  last_graph,
}

module _ {Number : Type 0} where
  -- What is found, if anything, is an article.
  abbrev pub IsArticle : Option (Fields Number) → Type 0
  IsArticle none = Unit
  IsArticle (some node) = is_article_type (get_field "@type" node) ≡ true

  abbrev IsArticleGraph : Option (Option (Fields Number)) → Type 0
  IsArticleGraph none = Unit
  IsArticleGraph (some found) = IsArticle found

  first_found-IsArticle :
      (a b : Option (Fields Number)) → IsArticle a → IsArticle b → IsArticle (first_found a b)
  first_found-IsArticle none b ha hb = hb
  first_found-IsArticle (some node) b ha hb = ha

  graph_or-IsArticle :
      (g : Option (Option (Fields Number))) (b : Option (Fields Number))
      → IsArticleGraph g
      → IsArticle b
      → IsArticle (graph_or g b)
  graph_or-IsArticle none b hg hb = hb
  graph_or-IsArticle (some found) b hg hb = hg

  last_graph-IsArticleGraph :
      (g : Option (Option (Fields Number))) (b : Option (Fields Number))
      → IsArticleGraph g
      → IsArticle b
      → IsArticleGraph (last_graph g b)
  last_graph-IsArticleGraph none b hg hb = hb
  last_graph-IsArticleGraph (some found) b hg hb = hg

  mutual
    unfolding find_dzen_node

    -- Wherever the search goes, what it finds is an object of an article's type.
    pub find_dzen_node-IsArticle : (value : Json Number) → IsArticle (find_dzen_node value)
    find_dzen_node-IsArticle (object fields) =
        elim (Bool-cases (is_article_type (get_field "@type" fields))) [
          | inl here ↦ rw (find_dzen_node, here) here
          | inr deeper ↦
              rw (find_dzen_node, deeper)
                (graph_or-IsArticle (search_graph fields) (search_fields fields)
                  (search_graph-IsArticleGraph fields) (search_fields-IsArticle fields))
        ]
    find_dzen_node-IsArticle (array items) = search_items-IsArticle items
    find_dzen_node-IsArticle null = tt
    find_dzen_node-IsArticle (boolean b) = tt
    find_dzen_node-IsArticle (number n) = tt
    find_dzen_node-IsArticle (text s) = tt

    search_items-IsArticle : (items : Items Number) → IsArticle (search_items items)
    search_items-IsArticle no_items = tt
    search_items-IsArticle (item value items) =
        first_found-IsArticle (find_dzen_node value) (search_items items)
          (find_dzen_node-IsArticle value) (search_items-IsArticle items)

    search_fields-IsArticle : (fields : Fields Number) → IsArticle (search_fields fields)
    search_fields-IsArticle no_fields = tt
    search_fields-IsArticle (field key value fields) =
        first_found-IsArticle (find_dzen_node value) (search_fields fields)
          (find_dzen_node-IsArticle value) (search_fields-IsArticle fields)

    search_graph-IsArticleGraph : (fields : Fields Number) → IsArticleGraph (search_graph fields)
    search_graph-IsArticleGraph no_fields = tt
    search_graph-IsArticleGraph (field key value fields) = elim (Bool-cases (key == "@graph")) [
      | inl graph ↦
          rw (search_graph, graph)
            (last_graph-IsArticleGraph (search_graph fields) (find_dzen_node value)
              (search_graph-IsArticleGraph fields) (find_dzen_node-IsArticle value))
      | inr other ↦ rw (search_graph, other) (search_graph-IsArticleGraph fields)
    ]
