-- ===== src/Go/Text/Replacer.antt =====
-- strings.NewReplacer and its Replace, for texts that are not empty.
use Prim.Native.String.{String, [], ◌∷◌}
use articleflow.Prelude.{zero, if◌then◌else◌, ◌-◌, some, suc, none, ℕ, Option, List}
use articleflow.Go.Text.{has_prefix, rune_count, cat}

-- The first of the pairs whose old text stands here.
unfoldable pub first_match : List (String × String) → String → Option (String × String)
unfolding has_prefix
first_match List.[] s = none
first_match (List.◌∷◌ (old, new) pairs) s =
    let later = first_match pairs s in if has_prefix s old then some (old, new) else later

-- Replace once `skip` characters of a replaced text are still to be passed over.
unfoldable pub replace_from : List (String × String) → ℕ → String → String
unfolding first_match rune_count cat
replace_from pairs skip [] = []
replace_from pairs (suc skip) (c ∷ s) = replace_from pairs skip s
replace_from pairs zero (c ∷ s) = elim (first_match pairs (c ∷ s)) [
  | none ↦ c ∷ replace_from pairs zero s
  | some (old, new) ↦ cat new (replace_from pairs (rune_count old - 1) s)
]

unfoldable pub replace_each : List (String × String) → String → String
unfolding replace_from
replace_each pairs s = replace_from pairs 0 s
