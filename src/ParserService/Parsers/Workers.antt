-- ===== src/ParserService/Parsers/Workers.antt =====
-- The results of fetchCandidates (dzen/client.go), which four workers give in whatever order they are
-- ready: each goes to the slot of its job.
pub mod Laws
use articleflow.Prelude.{zero, [], suc, none, ◌∷◌, ℕ, Option, List, String}

-- `ordered[index] = result`; an index out of range, which no job has, changes nothing.
abbrev pub put_at {ℓ} : {B : Type ℓ} → ℕ → B → List B → List B
put_at i x [] = []
put_at zero x (y ∷ ys) = x ∷ ys
put_at (suc i) x (y ∷ ys) = y ∷ put_at i x ys

-- The results as they come, each put at the index of its job.
unfoldable pub collect_results {ℓ} : {B : Type ℓ} → (ℕ → B) → List ℕ → List B → List B
collect_results fetched [] slots = slots
collect_results fetched (index ∷ indexes) slots =
    collect_results fetched indexes (put_at index (fetched index) slots)

-- A slot for each job.
abbrev pub no_results {ℓ κ} : {A : Type ℓ} {B : Type κ} → List A → List (Option B)
no_results [] = []
no_results (x ∷ xs) = none ∷ no_results xs
