-- ===== src/ParserService/Parsers/Urls.antt =====
-- The loops of the parsers that keep URLs, each once, up to a limit: appendDiscoveryURLs of vc, addURL
-- and addURLs of dzen.
pub mod Laws
use articleflow.Go.Map.{insert, member}
use articleflow.Go.Text.{is_empty}
use articleflow.Prelude.Int.{leb_ℤ, pos, ltb_ℤ, ℤ}
use articleflow.Prelude.{
  ◌++◌, true, length, ◌&&◌, not, if◌then◌else◌, ◌∷◌, ◌||◌, Bool, [], List, String,
}
use articleflow.Dedup.{Kept}

abbrev pub nothing_kept : Kept
nothing_kept = record { seen = []; values = [] }

unfoldable pub keep_url : Kept → String → Kept
keep_url kept url = record { seen = insert url true kept.seen; values = kept.values ++ url ∷ [] }

module _ {ℓ} {A : Type ℓ} (url_of : A → String) (skip : A → Bool) where
  unfoldable pub passes_over : Kept → A → Bool
  passes_over kept item = skip item || is_empty (url_of item) || member (url_of item) kept.seen

  -- A limit that is not positive is none.
  unfoldable pub keep_up_to : ℤ → Kept → List A → Kept
  unfolding passes_over keep_url
  keep_up_to limit kept [] = kept
  keep_up_to limit kept (item ∷ items) =
      let taken = keep_url kept (url_of item) in
      let skipped = passes_over kept item in
      let rest = keep_up_to limit (if skipped then kept else taken) items in
      if not skipped && ltb_ℤ (pos 0) limit && leb_ℤ limit (pos (length taken.values))
      then taken
      else rest
