-- ===== src/Go/Text.antt =====
-- Go's package strings over valid UTF-8, where a text is a list of code points. The space characters
-- are those of unicode.IsSpace. The case mapping is that of unicode.ToLower on ASCII, Latin-1 and
-- the basic Cyrillic letters; the other cased letters stay as they are.
pub mod Laws
pub mod Split
pub mod Replacer
use Prim.Native.Char.{Char, char, code, IsScalar}
use Prim.Native.Nat.{Ordering, compare}
use Prim.Native.String
use text.Mathlib.Text.{◌==◌ as str_eq}
use Prim.Native.String.{[], ◌∷◌}
use mathlib.Core.List.{List, ◌++◌}
use articleflow.Prelude.{
  some, none, Option, ℕ, zero, suc, ◌+◌, ◌-◌, String, ◌≡◌, refl, Bool, true, false, not, ◌&&◌, ◌||◌,
  leb, eqb, if◌then◌else◌,
}

scalar_of_lt : (n : ℕ) → compare n 55296 ≡ Ordering.lt → IsScalar n
scalar_of_lt n e = rw e tt

below : (n : ℕ) (o : Ordering) → compare n 55296 ≡ o → Char → Char
below n Ordering.lt e c = char n (scalar_of_lt n e)
below n _ e c = c

-- The character with the number `n`, if that lies below the surrogates, and else `c`.
unfoldable pub of_code : ℕ → Char → Char
unfolding below scalar_of_lt
of_code n c = below n (compare n 55296) refl c

code-below :
    (n : ℕ) (o : Ordering) (e : compare n 55296 ≡ o) (c : Char)
    → o ≡ Ordering.lt
    → code (below n o e c) ≡ n
unfolding below
code-below n Ordering.lt e c h = refl
code-below n Ordering.eq e c h = cc
code-below n Ordering.gt e c h = cc

pub code-of_code : (n : ℕ) (c : Char) → compare n 55296 ≡ Ordering.lt → code (of_code n c) ≡ n
unfolding of_code
code-of_code n c h = code-below n (compare n 55296) refl c h

abbrev between : ℕ → ℕ → ℕ → Bool
between a b n = leb a n && leb n b

-- unicode.IsSpace
unfoldable pub is_space : Char → Bool
is_space c =
    between 9 13 (code c)
    || eqb (code c) 32
    || eqb (code c) 0x85
    || eqb (code c) 0xa0
    || eqb (code c) 0x1680
    || between 0x2000 0x200a (code c)
    || between 0x2028 0x2029 (code c)
    || eqb (code c) 0x202f
    || eqb (code c) 0x205f
    || eqb (code c) 0x3000

-- The number of the lower case letter.
lower_code : ℕ → ℕ
lower_code n =
    if between b'A' b'Z' n || between 0xc0 0xde n && not (eqb n 0xd7) || between 0x410 0x42f n
    then n + 32
    else if between 0x400 0x40f n
    then n + 80
    else n

unfoldable pub lower_char : Char → Char
unfolding of_code lower_code
lower_char c = of_code (lower_code (code c)) c

-- strings.ToLower
unfoldable pub to_lower : String → String
unfolding lower_char
to_lower [] = []
to_lower (c ∷ s) = lower_char c ∷ to_lower s

abbrev pub is_empty : String → Bool
is_empty [] = true
is_empty (_ ∷ _) = false

module _ (cut : Char → Bool) where
  unfoldable pub trim_left : String → String
  trim_left [] = []
  trim_left (c ∷ s) = elim (cut c) [ true ↦ trim_left s | false ↦ c ∷ s ]

  unfoldable pub trim_right : String → String
  trim_right [] = []
  trim_right (c ∷ s) = let rest = trim_right s in if is_empty rest && cut c then [] else c ∷ rest

  -- strings.TrimFunc
  unfoldable pub trim_func : String → String
  unfolding trim_left trim_right
  trim_func s = trim_right (trim_left s)

-- strings.TrimSpace
unfoldable pub trim_space : String → String
unfolding trim_func is_space
trim_space s = trim_func is_space s

-- strings.HasPrefix
unfoldable pub has_prefix : String → String → Bool
has_prefix s [] = true
has_prefix [] (d ∷ t) = false
has_prefix (c ∷ s) (d ∷ t) = eqb (code c) (code d) && has_prefix s t

-- strings.Contains
unfoldable pub contains : String → String → Bool
unfolding has_prefix
contains [] t = has_prefix [] t
contains (c ∷ s) t = has_prefix (c ∷ s) t || contains s t

abbrev push : String → Char → String
push s c = String.◌++◌ s (c ∷ [])

abbrev emit : String → List String
emit [] = List.[]
emit (c ∷ s) = List.◌∷◌ (c ∷ s) List.[]

-- The pieces between separators that are not empty; `cur` is the piece read so far.
fields_from : (Char → Bool) → String → String → List String
fields_from sep cur [] = emit cur
fields_from sep cur (c ∷ s) = elim (sep c) [
  | true ↦ emit cur ++ fields_from sep [] s
  | false ↦ fields_from sep (push cur c) s
]

-- strings.FieldsFunc
unfoldable pub fields_func : (Char → Bool) → String → List String
unfolding fields_from
fields_func sep s = fields_from sep [] s

-- strings.Fields
unfoldable pub fields : String → List String
unfolding fields_func is_space
fields s = fields_func is_space s

-- strings.Join
unfoldable pub join : List String → String → String
join List.[] sep = []
join (List.◌∷◌ s List.[]) sep = s
join (List.◌∷◌ s (List.◌∷◌ t ts)) sep = String.◌++◌ s (String.◌++◌ sep (join (List.◌∷◌ t ts) sep))

-- len([]rune(s))
unfoldable pub rune_count : String → ℕ
rune_count [] = 0
rune_count (c ∷ s) = suc (rune_count s)

unfoldable pub cat : String → String → String
cat s t = String.◌++◌ s t

-- strings.TrimSuffix
unfoldable pub trim_suffix : String → String → String
trim_suffix [] suffix = []
trim_suffix (c ∷ s) suffix = if str_eq (c ∷ s) suffix then [] else c ∷ trim_suffix s suffix

-- strings.ContainsRune
unfoldable pub contains_rune : String → Char → Bool
contains_rune [] d = false
contains_rune (c ∷ s) d = eqb (code c) (code d) || contains_rune s d

-- strings.Trim
unfoldable pub trim_cutset : String → String → String
unfolding trim_func contains_rune
trim_cutset s cutset = trim_func (contains_rune cutset) s

after_prefix : String → String → String
after_prefix s [] = s
after_prefix [] (d ∷ t) = []
after_prefix (c ∷ s) (d ∷ t) = after_prefix s t

-- strings.TrimPrefix
unfoldable pub trim_prefix : String → String → String
unfolding has_prefix after_prefix
trim_prefix s prefix = if has_prefix s prefix then after_prefix s prefix else s

-- strings.TrimRight
unfoldable pub trim_right_cutset : String → String → String
unfolding trim_right contains_rune
trim_right_cutset s cutset = trim_right (contains_rune cutset) s

read_before : String → String → String → Option String
read_before separator piece [] = none
read_before separator piece (c ∷ s) =
    let rest = read_before separator (push piece c) s in
    if has_prefix (c ∷ s) separator then some piece else rest

-- The first result of strings.Cut, where the separator occurs (it must not be empty).
unfoldable pub before_separator : String → String → Option String
unfolding read_before
before_separator separator s = read_before separator [] s
