-- ===== src/ArticleService/Store/Laws.antt =====
-- Saving articles: the two indexes agree, and the first article of a URL stays.
use articleflow.Prelude.{
  [], ◌∷◌, List, sym, ap, ◌==◌, if◌then◌else◌, eq_refl, eq_iff, inl, arith, inr, some, none, ◌≡◌,
  Option-cases, String,
}
use articleflow.Go.Map.{lookup, lookup-insert}
use articleflow.Contracts.Article.{Article}
use articleflow.ArticleService.Store.{MemoryArticleStore, new_store, save, find_by_url, get_by_id}

-- Each article is filed under its own URL and id, and one that has an id has a URL too.
pub record IsConsistent (s : MemoryArticleStore) : Type 0 where
  pub own_url : (url : String) (a : Article) → find_by_url s url ≡ some a → a.url ≡ url
  pub own_id : (id : String) (a : Article) → get_by_id s id ≡ some a → a.id ≡ id
  pub indexed : (id : String) (a : Article) → get_by_id s id ≡ some a → find_by_url s a.url ≡ some a

pub new_store-IsConsistent : IsConsistent new_store
unfolding find_by_url get_by_id lookup
new_store-IsConsistent = record {
  own_url = λ url a h. cc h;
  own_id = λ id a h. cc h;
  indexed = λ id a h. cc h;
}

-- What the store holds after an article with a new URL is saved.
find_by_url-save_new :
    (s : MemoryArticleStore) (a : Article) (url : String)
    → find_by_url s a.url ≡ none
    → find_by_url (save s a).0 url ≡ (if a.url == url then some a else find_by_url s url)
unfolding find_by_url save
find_by_url-save_new s a url h = rw (h, save) (lookup-insert a.url url a s.by_url)

pub get_by_id-save_new :
    (s : MemoryArticleStore) (a : Article) (id : String)
    → find_by_url s a.url ≡ none
    → get_by_id (save s a).0 id ≡ (if a.id == id then some a else get_by_id s id)
unfolding find_by_url get_by_id save
get_by_id-save_new s a id h = rw (h, save) (lookup-insert a.id id a s.by_id)

pub save_known :
    (s : MemoryArticleStore) (a b : Article) → find_by_url s a.url ≡ some b → save s a ≡ (s, b)
unfolding find_by_url save
save_known s a b h = rw (h, save)

result-save_new :
    (s : MemoryArticleStore) (a : Article) → find_by_url s a.url ≡ none → (save s a).1 ≡ a
unfolding find_by_url save
result-save_new s a h = rw (h, save)

module _ (s : MemoryArticleStore) (a : Article) (h : IsConsistent s)
    (new : find_by_url s a.url ≡ none) where
  own_url_new : (url : String) (b : Article) → find_by_url (save s a).0 url ≡ some b → b.url ≡ url
  own_url_new url b e =
      ground (arith, find_by_url-save_new s a url new, eq_iff a.url url, h.own_url url b)

  own_id_new : (id : String) (b : Article) → get_by_id (save s a).0 id ≡ some b → b.id ≡ id
  own_id_new id b e = ground (arith, get_by_id-save_new s a id new, eq_iff a.id id, h.own_id id b)

  indexed_new :
      (id : String) (b : Article)
      → get_by_id (save s a).0 id ≡ some b
      → find_by_url (save s a).0 b.url ≡ some b
  indexed_new id b e = ground (
    arith,
    get_by_id-save_new s a id new,
    find_by_url-save_new s a b.url new,
    eq_iff a.id id,
    eq_iff a.url b.url,
    eq_refl a.url,
    h.indexed id b,
  )

-- Saving keeps the two indexes consistent: an article that is found has the URL or the id that it is
-- found by, and one that its id finds is found by its URL too.
pub save-IsConsistent :
    (s : MemoryArticleStore) (a : Article) → IsConsistent s → IsConsistent (save s a).0
save-IsConsistent s a h = elim (Option-cases (find_by_url s a.url)) [
  | inr (b, known) ↦ rw (save_known s a b known) h
  | inl new ↦ record {
    own_url = own_url_new s a h new;
    own_id = own_id_new s a h new;
    indexed = indexed_new s a h new;
  }
]

-- One after the other, some articles are saved.
abbrev pub save_all : MemoryArticleStore → List Article → MemoryArticleStore
save_all s [] = s
save_all s (a ∷ articles) = save_all (save s a).0 articles

pub find_by_url-save_kept :
    (s : MemoryArticleStore) (a b : Article) (url : String)
    → find_by_url s url ≡ some b
    → find_by_url (save s a).0 url ≡ some b
find_by_url-save_kept s a b url h = elim (Option-cases (find_by_url s a.url)) [
  | inr (c, known) ↦ rw (save_known s a c known) h
  | inl new ↦ ground (arith, find_by_url-save_new s a url new, eq_iff a.url url)
]

find_by_url-save_all :
    (s : MemoryArticleStore) (articles : List Article) (b : Article) (url : String)
    → find_by_url s url ≡ some b
    → find_by_url (save_all s articles) url ≡ some b
find_by_url-save_all s [] b url h = h
find_by_url-save_all s (a ∷ articles) b url h =
    find_by_url-save_all (save s a).0 articles b url (find_by_url-save_kept s a b url h)

pub find_by_url-save :
    (s : MemoryArticleStore) (a : Article) → find_by_url (save s a).0 a.url ≡ some (save s a).1
find_by_url-save s a = elim (Option-cases (find_by_url s a.url)) [
  | inr (c, known) ↦ rw (save_known s a c known) known
  | inl new ↦
      rw (find_by_url-save_new s a a.url new, eq_refl a.url)
        (ap some (sym (result-save_new s a new)))
]

-- What Save returns for an article is what its URL finds, then and after any other articles are saved;
-- a later article with that URL changes nothing, and gets the first one back.
pub save_first_wins :
    (s : MemoryArticleStore) (a : Article) (between : List Article) (b : Article)
    → b.url ≡ a.url
    → (find_by_url (save_all (save s a).0 between) a.url ≡ some (save s a).1)
      × (save (save_all (save s a).0 between) b ≡ (save_all (save s a).0 between, (save s a).1))
save_first_wins s a between b same =
    let kept =
      find_by_url-save_all (save s a).0 between (save s a).1 a.url (find_by_url-save s a) in
    (kept, save_known (save_all (save s a).0 between) b (save s a).1 (rw same kept))
