-- ===== src/Dedup.antt =====
-- The loop that keeps the first of equal texts, which the services write many times: a value is
-- normalised, skipped if it is empty (or too short) or if its key was seen, and else appended.
pub mod Laws
use articleflow.Prelude.{◌++◌, true, ◌||◌, [], ◌∷◌, if◌then◌else◌, Bool, List, String}
use articleflow.Go.Map.{Set, member, insert}

pub record Kept : Type 0 where
  pub seen : Set
  pub values : List String

module _ (norm : String → String) (key : String → String) (skip : String → Bool) where
  -- One round of the loop.
  unfoldable pub keep_new : Kept → String → Kept
  keep_new kept raw =
      let value = norm raw in
      if skip value || member (key value) kept.seen
      then kept
      else record { seen = insert (key value) true kept.seen; values = kept.values ++ value ∷ [] }

  unfoldable pub keep_all : Kept → List String → Kept
  unfolding keep_new
  keep_all kept [] = kept
  keep_all kept (raw ∷ rest) = keep_all (keep_new kept raw) rest

  unfoldable pub dedup : List String → List String
  unfolding keep_all
  dedup raws = (keep_all (record { seen = []; values = [] }) raws).values
