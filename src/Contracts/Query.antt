-- ===== src/Contracts/Query.antt =====
-- The limits that both kinds of search query share: contracts/article/v1/article.go and
-- contracts/parser/v1/parser.go.
use articleflow.Prelude.{◌≤◌, ◌≡◌, if◌then◌else◌, arith}
use articleflow.Prelude.Int.{pos_part, ℤ, pos, ◌≤ℤ◌, ltb_ℤ, leb_ℤ}

unfoldable pub at_least_one : ℤ → ℤ
at_least_one limit = if leb_ℤ limit (pos 0) then pos 20 else limit

-- A limit from 1 to 100, 20 where none is asked for.
unfoldable pub clamp_limit : ℤ → ℤ
unfolding at_least_one
clamp_limit limit =
    let asked = at_least_one limit in if ltb_ℤ (pos 100) asked then pos 100 else asked

unfoldable pub clamp_offset : ℤ → ℤ
clamp_offset offset = if ltb_ℤ offset (pos 0) then pos 0 else offset

pub clamp_limit_bounds : (l : ℤ) → (pos 1 ≤ℤ clamp_limit l) × (clamp_limit l ≤ℤ pos 100)
unfolding clamp_limit
clamp_limit_bounds l = ground arith

pub clamp_limit_fixed : (l : ℤ) → pos 1 ≤ℤ l → l ≤ℤ pos 100 → clamp_limit l ≡ l
unfolding clamp_limit
clamp_limit_fixed l h k = ground arith

pub clamp_offset_bound : (o : ℤ) → pos 0 ≤ℤ clamp_offset o
unfolding clamp_offset
clamp_offset_bound o = ground arith

pub clamp_offset_fixed : (o : ℤ) → pos 0 ≤ℤ o → clamp_offset o ≡ o
unfolding clamp_offset
clamp_offset_fixed o h = ground arith

pub clamp_limit_number : (l : ℤ) → (1 ≤ pos_part (clamp_limit l)) × (pos_part (clamp_limit l) ≤ 100)
unfolding clamp_limit
clamp_limit_number l = ground arith
