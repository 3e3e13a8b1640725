-- ===== src/Gateway/FeedQuery/Laws.antt =====
-- The cursor, the limits and the lists that a query gives.
use articleflow.Go.Text.Split.{cut_prefix-cat}
use articleflow.Go.Decimal.{atoi-itoa, itoa-has_no_cut, max_int}
use articleflow.Go.Text.Laws.{has_no_cut-cat, trim_space_fixed, has_no_cut}
use text.Mathlib.TextLemmas.{cons-append}
use articleflow.Prelude.Int.{pos, ℤ, ◌≤ℤ◌}
use articleflow.Go.Text.{is_space, cat, is_empty}
use articleflow.Prelude.{true, ◌∙◌, ap, false, ◌≡◌, arith, ◌+◌, ◌≤◌, List, ℕ, String}
use articleflow.Gateway.FeedQuery.{
  parse_feed_cursor, itoa, pos, ℤ, Map, next_feed_cursor, parse_limit,
}

next-has_no_cut : (n : ℕ) → has_no_cut is_space (cat "offset:" (itoa (pos n))) ≡ true
unfolding is_space
next-has_no_cut n = has_no_cut-cat is_space "offset:" (itoa (pos n)) ∙ itoa-has_no_cut n

next-is_empty : (n : ℕ) → is_empty (cat "offset:" (itoa (pos n))) ≡ false
unfolding cat
next-is_empty n = ap is_empty (cons-append "o" "ffset:" (itoa (pos n)))

parse_offset : (n : ℕ) → n ≤ max_int → parse_feed_cursor (cat "offset:" (itoa (pos n))) ≡ pos n
unfolding parse_feed_cursor
parse_offset n fits =
    rw
      (
        parse_feed_cursor,
        trim_space_fixed (cat "offset:" (itoa (pos n))) (next-has_no_cut n),
        next-is_empty n,
        cut_prefix-cat "offset:" (itoa (pos n)),
        trim_space_fixed (itoa (pos n)) (itoa-has_no_cut n),
        atoi-itoa (pos n) (ground arith),
      )
      (ground arith)

-- The cursor after a full page is read back as the offset of the page after it.
pub parse-next_feed_cursor :
    (offset count : ℕ) (limit : ℤ)
    → 1 ≤ count
    → pos 1 ≤ℤ limit
    → limit ≤ℤ pos count
    → offset + count ≤ max_int
    → parse_feed_cursor (next_feed_cursor (pos offset) count limit) ≡ pos (offset + count)
unfolding next_feed_cursor
parse-next_feed_cursor offset count limit some_item positive full fits =
    let there : next_feed_cursor (pos offset) count limit
        ≡ cat "offset:" (itoa (pos (offset + count))) =
      ground arith in
    ap parse_feed_cursor there ∙ parse_offset (offset + count) fits

-- Every limit that the handler works with is from 1 to 100.
parse_limit_bounds :
    (values : Map (List String)) → (pos 1 ≤ℤ parse_limit values) × (parse_limit values ≤ℤ pos 100)
unfolding parse_limit
parse_limit_bounds values = ground arith
