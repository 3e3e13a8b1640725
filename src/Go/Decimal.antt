-- ===== src/Go/Decimal.antt =====
-- strconv.Itoa and strconv.Atoi for a 64-bit int.
use articleflow.Prelude.{
  ap, Bool, ◌∙◌, ◌≤◌, ◌<◌, arith, false, zero, ◌&&◌, leb, ◌+◌, refl, ◌-◌, true, ◌*◌, ltb, ◌||◌,
  none, some, eqb, Option, ◌≡◌, suc, if◌then◌else◌, ℕ, String,
}
use Prim.Native.Char.{Char, code}
use Prim.Native.String.{[], ◌∷◌}
use Prim.Native.Nat.{◌%◌, ◌^◌}
use Prim.Native.Nat.{◌/◌}
use articleflow.Prelude.Int.{ℤ, pos, negsuc}
use articleflow.Go.Text.Laws.{has_no_cut}
use articleflow.Go.Text.{is_space, of_code, code-of_code, is_empty}

abbrev pub max_int : ℕ
max_int = 2 ^ 63 - 1

-- The character of a digit.
digit_char : ℕ → Char
unfolding of_code
digit_char d = of_code (b'0' + d) "0"

-- The digits of a number before those that are written; there are no more of them than the fuel.
digits : ℕ → ℕ → String → String
unfolding digit_char
digits zero n out = out
digits (suc fuel) zero out = out
digits (suc fuel) (suc n) out = digits fuel (suc n / 10) (digit_char (suc n % 10) ∷ out)

unsigned_itoa : ℕ → String
unfolding digits
unsigned_itoa zero = "0"
unsigned_itoa (suc n) = digits (suc n) (suc n) ""

-- strconv.Itoa
unfoldable pub itoa : ℤ → String
unfolding unsigned_itoa
itoa (pos n) = unsigned_itoa n
itoa (negsuc n) = "-" ∷ unsigned_itoa (suc n)

-- The number that digits spell behind `n`.
scan : String → ℕ → Option ℕ
scan [] n = some n
scan (c ∷ s) n =
    let rest = scan s (n * 10 + (code c - b'0')) in
    if leb b'0' (code c) && leb (code c) b'9' then rest else none

-- The digits of Atoi, whose sign is gone: at least one, and a number up to `most`.
unsigned_atoi : ℕ → String → Option ℕ
unfolding scan
unsigned_atoi most s = elim (scan s 0) [
  | none ↦ none
  | some n ↦ if is_empty s || ltb most n then none else some n
]

not_negative : Option ℕ → Option ℤ
not_negative none = none
not_negative (some n) = some (pos n)

negate : Option ℕ → Option ℤ
negate none = none
negate (some zero) = some (pos 0)
negate (some (suc n)) = some (negsuc n)

-- strconv.Atoi, with no result where it returns an error.
unfoldable pub atoi : String → Option ℤ
unfolding unsigned_atoi negate not_negative
atoi [] = none
atoi (c ∷ s) =
    if eqb (code c) b'-'
    then negate (unsigned_atoi (suc max_int) s)
    else if eqb (code c) b'+'
    then not_negative (unsigned_atoi max_int s)
    else not_negative (unsigned_atoi max_int (c ∷ s))

itoa_test : itoa (pos 1050) ≡ "1050"
unfolding itoa
itoa_test = refl

atoi_test : (atoi "-7" ≡ some (negsuc 6)) × (atoi "+40" ≡ some (pos 40)) × (atoi "4x" ≡ none)
unfolding atoi
atoi_test = (refl, refl, refl)

digit_code : (d : ℕ) → d < 10 → code (digit_char d) ≡ b'0' + d
unfolding digit_char
digit_code d h = code-of_code (b'0' + d) "0" (ground arith)

-- Reading the last digit of `n` after the digits before it gives `n`.
scan_last : (n : ℕ) (out : String) → scan (digit_char (n % 10) ∷ out) (n / 10) ≡ scan out n
unfolding scan
scan_last n out = grind (arith, digit_code (n % 10))

scan-digits : (fuel n : ℕ) (out : String) → n ≤ fuel → scan (digits fuel n out) 0 ≡ scan out n
unfolding digits
scan-digits zero n out h = ground arith
scan-digits (suc fuel) zero out h = refl
scan-digits (suc fuel) (suc n) out h =
    scan-digits fuel (suc n / 10) (digit_char (suc n % 10) ∷ out) (omega arith)
    ∙ scan_last (suc n) out

digits-is_empty :
    (fuel n : ℕ) (out : String) → is_empty out ≡ false → is_empty (digits fuel n out) ≡ false
unfolding digits
digits-is_empty zero n out h = h
digits-is_empty (suc fuel) zero out h = h
digits-is_empty (suc fuel) (suc n) out h =
    digits-is_empty fuel (suc n / 10) (digit_char (suc n % 10) ∷ out) refl

scan-unsigned_itoa : (n : ℕ) → scan (unsigned_itoa n) 0 ≡ some n
unfolding unsigned_itoa scan
scan-unsigned_itoa zero = refl
scan-unsigned_itoa (suc n) = scan-digits (suc n) (suc n) "" (omega arith)

unsigned_itoa-is_empty : (n : ℕ) → is_empty (unsigned_itoa n) ≡ false
unfolding unsigned_itoa digits
unsigned_itoa-is_empty zero = refl
unsigned_itoa-is_empty (suc n) = digits-is_empty n (suc n / 10) (digit_char (suc n % 10) ∷ "") refl

unsigned_atoi-itoa : (most n : ℕ) → n ≤ most → unsigned_atoi most (unsigned_itoa n) ≡ some n
unfolding unsigned_atoi
unsigned_atoi-itoa most n h =
    rw (unsigned_atoi, scan-unsigned_itoa n, unsigned_itoa-is_empty n) (ground arith)

-- A text that starts with a digit has no sign.
atoi-unsigned :
    (s : String) (n : ℕ)
    → scan s 0 ≡ some n
    → is_empty s ≡ false
    → atoi s ≡ not_negative (unsigned_atoi max_int s)
unfolding atoi scan
atoi-unsigned [] n h some_digit = cc
atoi-unsigned (c ∷ s) n h some_digit = ground arith

-- The numbers of a 64-bit int.
abbrev pub fits_int : ℤ → Bool
fits_int (pos n) = leb n max_int
fits_int (negsuc n) = leb n max_int

-- Every 64-bit number is read back from its decimal print.
pub atoi-itoa : (i : ℤ) → fits_int i ≡ true → atoi (itoa i) ≡ some i
unfolding itoa not_negative negate atoi unsigned_atoi
atoi-itoa (pos n) h =
    atoi-unsigned (unsigned_itoa n) n (scan-unsigned_itoa n) (unsigned_itoa-is_empty n)
    ∙ ap not_negative (unsigned_atoi-itoa max_int n (ground arith))
atoi-itoa (negsuc n) h = ap negate (unsigned_atoi-itoa (suc max_int) (suc n) (ground arith))

scan-has_no_cut : (s : String) (n r : ℕ) → scan s n ≡ some r → has_no_cut is_space s ≡ true
unfolding scan is_space
scan-has_no_cut [] n r h = refl
scan-has_no_cut (c ∷ s) n r h =
    let rest = scan-has_no_cut s (n * 10 + (code c - b'0')) r in ground (arith, rest)

-- A decimal number has no space in it.
pub itoa-has_no_cut : (n : ℕ) → has_no_cut is_space (itoa (pos n)) ≡ true
unfolding itoa
itoa-has_no_cut n = scan-has_no_cut (unsigned_itoa n) 0 n (scan-unsigned_itoa n)
