-- ===== src/ParserService/Parsers/State.antt =====
-- services/parser-service/internal/parsers/vc/html.go: the JSON object in a script that sets the state
-- of the page.
use text.Mathlib.TextLemmas.{cons-append}
use articleflow.Go.Text.{trim_space, cat}
use articleflow.Go.Text.Split.{text_after, cut}
use articleflow.Prelude.{
  refl, Option-cases, inr, ◌∙◌, subst, ap, inl, Bool-cases, ◌≡◌, zero, ◌&&◌, true, eqb, none, some,
  not, Option, if◌then◌else◌, false, Bool, suc, String,
}
use articleflow.Prelude.Int.{leb_ℤ, ℤ, pos, negsuc}
use Prim.Native.Char.{Char, code}
use Prim.Native.String.{[], ◌∷◌}

abbrev pub up : ℤ → ℤ
up (pos n) = pos (suc n)
up (negsuc zero) = pos 0
up (negsuc (suc n)) = negsuc n

abbrev pub down : ℤ → ℤ
down (pos zero) = negsuc 0
down (pos (suc n)) = pos n
down (negsuc n) = negsuc (suc n)

-- The variables of the loop of jsonObjectEnd.
pub record Scan : Type 0 where
  pub depth : ℤ
  pub in_string : Bool
  pub escaped : Bool

-- One round of the loop.
unfoldable pub scan_char : Scan → Char → Scan
scan_char scan c =
    if scan.in_string
    then if scan.escaped
      then record scan { escaped = false }
      else if eqb (code c) b'\\'
      then record scan { escaped = true }
      else if eqb (code c) b'"'
      then record scan { in_string = false }
      else scan
    else if eqb (code c) b'"'
    then record scan { in_string = true }
    else if eqb (code c) b'{'
    then record scan { depth = up scan.depth }
    else if eqb (code c) b'}'
    then record scan { depth = down scan.depth }
    else scan

-- Whether the loop returns at this character.
unfoldable pub closes : Scan → Char → Bool
closes scan c =
    not scan.in_string
    && eqb (code c) b'}'
    && leb_ℤ (down scan.depth) (pos 0)
    && leb_ℤ (pos 0) (down scan.depth)

abbrev pub behind : Char → Option String → Option String
behind c none = none
behind c (some s) = some (c ∷ s)

-- value[:jsonObjectEnd(value)], none where the end is -1.
unfoldable pub object_from : Scan → String → Option String
unfolding scan_char closes
object_from scan [] = none
object_from scan (c ∷ s) =
    let later = object_from (scan_char scan c) s in
    if closes scan c then some (c ∷ "") else behind c later

abbrev pub at_start : Scan
at_start = record { depth = pos 0; in_string = false; escaped = false }

unfoldable pub json_object : String → Option String
unfolding object_from
json_object value = object_from at_start value

-- value[strings.Index(value, "{"):]
unfoldable pub from_brace : String → Option String
from_brace [] = none
from_brace (c ∷ s) = let later = from_brace s in if eqb (code c) b'{' then some (c ∷ s) else later

unfoldable pub extract_initial_state : String → Option String
unfolding json_object from_brace cut text_after
extract_initial_state script = elim (text_after script "window.__INITIAL_STATE__") [
  | none ↦ none
  | some after_marker ↦ elim (cut after_marker "=") [
    | none ↦ none
    | some (before, after) ↦ elim (from_brace (trim_space after)) [
      | none ↦ none
      | some payload ↦ json_object payload
    ]
  ]
]

-- The object that was cut out of a text is cut out again of any text that starts with it.
pub object_from_again :
    (scan : Scan) (s p t : String)
    → object_from scan s ≡ some p
    → object_from scan (cat p t) ≡ some p
unfolding object_from cat
object_from_again scan [] p t e = cc
object_from_again scan (c ∷ s) p t e = elim (Bool-cases (closes scan c)) [
  | inl last ↦
      let only : some (c ∷ "") ≡ some p = rw (object_from, last) at e in
      let same : c ∷ "" ≡ p = ap (λ (r : Option String). elim r [ none ↦ "" | some q ↦ q ]) only in
      subst (λ q. object_from scan (cat q t) ≡ some q) same
        (ap (object_from scan) (cons-append c "" t) ∙ rw (object_from, last) refl)
  | inr more ↦ elim (Option-cases (object_from (scan_char scan c) s)) [
    | inl missing ↦ let nothing : none ≡ some p = rw (object_from, more, missing) at e in cc
    | inr (q, found) ↦
        let longer : some (c ∷ q) ≡ some p = rw (object_from, more, found) at e in
        let same : c ∷ q ≡ p =
          ap (λ (r : Option String). elim r [ none ↦ "" | some q ↦ q ]) longer in
        let again = object_from_again (scan_char scan c) s q t found in
        subst (λ r. object_from scan (cat r t) ≡ some r) same
          (ap (object_from scan) (cons-append c q t) ∙ rw (object_from, more, again) refl)
  ]
]
