-- ===== src/Go/Text/Split.antt =====
-- The functions of package strings that cut a text into parts.
use Prim.Native.String
use text.Mathlib.TextLemmas.{append_assoc, cons-append, nil-append, append-nil}
use articleflow.Go.Text.Laws.{has_no_cut, trim_prefix-cat, has_prefix-cat}
use Prim.Native.Char.{Char, code}
use Prim.Native.String.{[], ◌∷◌}
use mathlib.Core.List.{List}
use articleflow.Prelude.{
  every, Bool, arith, ◌∙◌, sym, if◌then◌else◌, ap, false, true, String, Option, none, some, eqb,
  ◌≡◌, refl,
}
use articleflow.Go.Text.{join, is_empty, cat, has_prefix, trim_prefix, push}

-- The parts between separators, empty ones too; `part` is the part read so far.
split_from : Char → String → String → List String
split_from sep part [] = List.◌∷◌ part List.[]
split_from sep part (c ∷ s) = elim (eqb (code c) (code sep)) [
  | true ↦ List.◌∷◌ part (split_from sep [] s)
  | false ↦ split_from sep (push part c) s
]

-- strings.Split with a separator of one character
unfoldable pub split : String → Char → List String
unfolding split_from
split s sep = split_from sep [] s

-- strings.CutPrefix, where the prefix is there
unfoldable pub cut_prefix : String → String → Option String
unfolding has_prefix trim_prefix
cut_prefix s prefix = elim (has_prefix s prefix) [
  | true ↦ some (trim_prefix s prefix)
  | false ↦ none
]

-- strings.Index with a separator of one character, as the parts before and after it
unfoldable cut_from : Char → String → String → Option (String × String)
cut_from sep part [] = none
cut_from sep part (c ∷ s) = elim (eqb (code c) (code sep)) [
  | true ↦ some (part, s)
  | false ↦ cut_from sep (push part c) s
]

-- strings.Cut with a separator of one character
unfoldable pub cut : String → Char → Option (String × String)
unfolding cut_from
cut s sep = cut_from sep [] s

-- What stands behind the first occurrence of a text, which strings.Index finds.
unfoldable pub text_after : String → String → Option String
unfolding has_prefix trim_prefix
text_after [] separator = if is_empty separator then some [] else none
text_after (c ∷ s) separator =
    let later = text_after s separator in
    if has_prefix (c ∷ s) separator then some (trim_prefix (c ∷ s) separator) else later

pub cut_prefix-cat : (s t : String) → cut_prefix (cat s t) s ≡ some t
unfolding cut_prefix
cut_prefix-cat s t = rw (cut_prefix, has_prefix-cat s t) (ap some (trim_prefix-cat s t))

abbrev same_char : Char → Char → Bool
same_char sep c = eqb (code c) (code sep)

-- The text does not have this character.
abbrev pub lacks : Char → String → Bool
lacks sep s = has_no_cut (same_char sep) s

push-cat : (part s : String) (c : Char) → cat (push part c) s ≡ cat part (c ∷ s)
unfolding cat
push-cat part s c =
    append_assoc part (c ∷ "") s
    ∙ ap (String.◌++◌ part) (cons-append c "" s ∙ ap (λ t. c ∷ t) (nil-append s))

split_from_end :
    (sep : Char) (part s : String)
    → lacks sep s ≡ true
    → split_from sep part s ≡ List.◌∷◌ (cat part s) List.[]
unfolding split_from cat
split_from_end sep part [] h = ap (λ p. List.◌∷◌ p List.[]) (sym (append-nil part))
split_from_end sep part (c ∷ s) h =
    let other : eqb (code c) (code sep) ≡ false = ground arith in
    rw (split_from, other)
      (split_from_end sep (push part c) s (ground arith)
        ∙ ap (λ p. List.◌∷◌ p List.[]) (push-cat part s c))

split_from-cat :
    (sep : Char) (part s t : String)
    → lacks sep s ≡ true
    → split_from sep part (cat s (sep ∷ t)) ≡ List.◌∷◌ (cat part s) (split_from sep "" t)
unfolding split_from cat
split_from-cat sep part [] t h =
    let same : eqb (code sep) (code sep) ≡ true = ground arith in
    ap (split_from sep part) (nil-append (sep ∷ t))
    ∙ rw (split_from, same) (ap (λ p. List.◌∷◌ p (split_from sep "" t)) (sym (append-nil part)))
split_from-cat sep part (c ∷ s) t h =
    let other : eqb (code c) (code sep) ≡ false = ground arith in
    ap (split_from sep part) (cons-append c s (sep ∷ t))
    ∙ rw (split_from, other)
        (split_from-cat sep (push part c) s t (ground arith)
          ∙ ap (λ p. List.◌∷◌ p (split_from sep "" t)) (push-cat part s c))

-- What is joined by a character that no part has is split into the same parts again.
pub split-join :
    (sep : Char) (part : String) (parts : List String)
    → every (lacks sep) (List.◌∷◌ part parts) ≡ true
    → split (join (List.◌∷◌ part parts) (sep ∷ "")) sep ≡ List.◌∷◌ part parts
unfolding split join cat
split-join sep part List.[] h =
    split_from_end sep "" part (ground arith) ∙ ap (λ p. List.◌∷◌ p List.[]) (nil-append part)
split-join sep part (List.◌∷◌ next parts) h =
    let rest = join (List.◌∷◌ next parts) (sep ∷ "") in
    let glue = cons-append sep "" rest ∙ ap (λ t. sep ∷ t) (nil-append rest) in
    ap (λ t. split_from sep "" (cat part t)) glue
    ∙ split_from-cat sep "" part rest (ground arith)
    ∙ ap (λ p. List.◌∷◌ p (split_from sep "" rest)) (nil-append part)
    ∙ ap (List.◌∷◌ part) (split-join sep next parts (ground arith))

cut_from-cat :
    (sep : Char) (part s t : String)
    → lacks sep s ≡ true
    → cut_from sep part (cat s (sep ∷ t)) ≡ some (cat part s, t)
unfolding cut_from cat
cut_from-cat sep part [] t h =
    let same : eqb (code sep) (code sep) ≡ true = ground arith in
    ap (cut_from sep part) (nil-append (sep ∷ t))
    ∙ rw (cut_from, same) (ap (λ (p : String). some (p, t)) (sym (append-nil part)))
cut_from-cat sep part (c ∷ s) t h =
    let other : eqb (code c) (code sep) ≡ false = ground arith in
    ap (cut_from sep part) (cons-append c s (sep ∷ t))
    ∙ rw (cut_from, other)
        (cut_from-cat sep (push part c) s t (ground arith)
          ∙ ap (λ (p : String). some (p, t)) (push-cat part s c))

pub cut-cat :
    (sep : Char) (s t : String) → lacks sep s ≡ true → cut (cat s (sep ∷ t)) sep ≡ some (s, t)
unfolding cut cat
cut-cat sep s t h = cut_from-cat sep "" s t h ∙ ap (λ (p : String). some (p, t)) (nil-append s)

split_test : split "a,,b," "," ≡ List.◌∷◌ "a" (List.◌∷◌ "" (List.◌∷◌ "b" (List.◌∷◌ "" List.[])))
unfolding split
split_test = refl

cut_test : cut "key=a=b" "=" ≡ some ("key", "a=b")
unfolding cut
cut_test = refl

cut_prefix_test : cut_prefix "offset:20" "offset:" ≡ some "20"
unfolding cut_prefix trim_prefix has_prefix
cut_prefix_test = refl
