-- ===== src/Go/Time.antt =====
-- Package time. A `Time` is the number of nanoseconds since Go's zero time (1 January of year 1, UTC);
-- earlier instants, locations and the monotonic reading are not modelled. A `Duration` that the
-- program only compares is a number of nanoseconds too.
use articleflow.Prelude.{ℕ, Bool, ltb, eqb, Option, none, some}

abbrev pub Time : Type 0
Time = ℕ

abbrev pub is_zero : Time → Bool
is_zero t = eqb t 0

-- t.After(u)
abbrev pub after : Time → Time → Bool
after t u = ltb u t

-- t.Before(u)
abbrev pub before : Time → Time → Bool
before t u = ltb t u

-- `bound != nil && t.Before(*bound)`
abbrev pub before_bound : Time → Option Time → Bool
before_bound t none = Bool.false
before_bound t (some u) = before t u

-- `bound != nil && t.After(*bound)`
abbrev pub after_bound : Time → Option Time → Bool
after_bound t none = Bool.false
after_bound t (some u) = after t u
