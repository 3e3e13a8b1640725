-- ===== src/Go/Text/Laws.antt =====
-- Trimming and lower case: what is trimmed is trimmed for good.
use text.Mathlib.TextLemmas.{nil-append, cons-append}
use Prim.Native.Char.{Char}
use Prim.Native.String.{[], ◌∷◌}
use articleflow.Prelude.{
  arith, not, ◌↔◌, String, ◌≡◌, refl, ap, ◌∙◌, Bool, false, ◌&&◌, Bool-cases, inl, inr,
}
use articleflow.Go.Text.{
  cat, has_prefix, after_prefix, trim_prefix, true, is_space, is_empty, trim_left, trim_right,
  trim_func, trim_space, to_lower,
}

module _ (cut : Char → Bool) where
  -- Nothing to trim in front.
  abbrev Starts : String → Type 0
  Starts [] = Unit
  Starts (c ∷ s) = cut c ≡ false

  trim_left-Starts : (s : String) → Starts (trim_left cut s)
  unfolding trim_left
  trim_left-Starts [] = tt
  trim_left-Starts (c ∷ s) = elim (Bool-cases (cut c)) [
    | inl e ↦ rw (e, trim_left) (trim_left-Starts s)
    | inr e ↦ rw (e, trim_left) e
  ]

  trim_left_of_Starts : (s : String) → Starts s → trim_left cut s ≡ s
  unfolding trim_left
  trim_left_of_Starts [] h = refl
  trim_left_of_Starts (c ∷ s) h = rw (h, trim_left)

  trim_right-Starts : (s : String) → Starts s → Starts (trim_right cut s)
  unfolding trim_right
  trim_right-Starts [] h = tt
  trim_right-Starts (c ∷ s) h = elim (Bool-cases (is_empty (trim_right cut s))) [
    | inl e ↦ rw (e, h) h
    | inr e ↦ rw e h
  ]

  trim_right_idem : (s : String) → trim_right cut (trim_right cut s) ≡ trim_right cut s
  unfolding trim_right
  trim_right_idem [] = refl
  trim_right_idem (c ∷ s) = elim (Bool-cases (is_empty (trim_right cut s) && cut c)) [
    | inl e ↦ rw e
    | inr e ↦ rw (e, trim_right_idem s, e)
  ]

  -- Trimming twice is trimming once.
  pub trim_func_idem : (s : String) → trim_func cut (trim_func cut s) ≡ trim_func cut s
  unfolding trim_func
  trim_func_idem s =
      ap (trim_right cut)
        (trim_left_of_Starts _ (trim_right-Starts (trim_left cut s) (trim_left-Starts s)))
      ∙ trim_right_idem (trim_left cut s)

  -- A text that starts with another character than those to cut is not cut to nothing.
  pub is_empty-trim_func :
      (c : Char) (s : String) → cut c ≡ false → is_empty (trim_func cut (c ∷ s)) ≡ false
  unfolding trim_func trim_left trim_right
  is_empty-trim_func c s h =
      ap (λ t. is_empty (trim_right cut t)) (trim_left_of_Starts (c ∷ s) h) ∙ ground (arith, h)

  abbrev pub has_no_cut : String → Bool
  has_no_cut [] = true
  has_no_cut (c ∷ s) = not (cut c) && has_no_cut s

  trim_right_fixed : (s : String) → has_no_cut s ≡ true → trim_right cut s ≡ s
  unfolding trim_right
  trim_right_fixed [] h = refl
  trim_right_fixed (c ∷ s) h =
      let kept : cut c ≡ false = ground arith in
      let rest = trim_right_fixed s (ground arith) in rw (trim_right, rest, kept) (ground arith)

  -- A text without any character to cut stays as it is.
  pub trim_func_fixed : (s : String) → has_no_cut s ≡ true → trim_func cut s ≡ s
  unfolding trim_func trim_left
  trim_func_fixed [] h = refl
  trim_func_fixed (c ∷ s) h =
      let kept : cut c ≡ false = ground arith in
      ap (trim_right cut) (trim_left_of_Starts (c ∷ s) kept) ∙ trim_right_fixed (c ∷ s) h

  pub has_no_cut-cat : (s t : String) → has_no_cut (cat s t) ≡ (has_no_cut s && has_no_cut t)
  unfolding cat
  has_no_cut-cat [] t = ap has_no_cut (nil-append t)
  has_no_cut-cat (c ∷ s) t = ap has_no_cut (cons-append c s t) ∙ ground (arith, has_no_cut-cat s t)

pub has_prefix-cat : (s t : String) → has_prefix (cat s t) s ≡ true
unfolding has_prefix cat
has_prefix-cat [] t = refl
has_prefix-cat (c ∷ s) t =
    ap (λ u. has_prefix u (c ∷ s)) (cons-append c s t) ∙ ground (arith, has_prefix-cat s t)

after_prefix-cat : (s t : String) → after_prefix (cat s t) s ≡ t
unfolding after_prefix cat
after_prefix-cat [] t = nil-append t
after_prefix-cat (c ∷ s) t =
    ap (λ u. after_prefix u (c ∷ s)) (cons-append c s t) ∙ after_prefix-cat s t

pub trim_prefix-cat : (s t : String) → trim_prefix (cat s t) s ≡ t
unfolding trim_prefix
trim_prefix-cat s t = rw (has_prefix-cat s t) (after_prefix-cat s t)

pub trim_space_fixed : (s : String) → has_no_cut is_space s ≡ true → trim_space s ≡ s
unfolding trim_space
trim_space_fixed s h = trim_func_fixed is_space s h

pub trim_space_idem : (s : String) → trim_space (trim_space s) ≡ trim_space s
unfolding trim_space
trim_space_idem s = trim_func_idem is_space s

pub trim_space_nil : trim_space "" ≡ ""
unfolding trim_space
trim_space_nil = refl

trim_test : trim_space "  Мир и peace \t" ≡ "Мир и peace"
unfolding trim_space
trim_test = refl

lower_test : to_lower "ÀB Мир ×" ≡ "àb мир ×"
unfolding to_lower
lower_test = refl

pub is_empty_iff : (s : String) → (is_empty s ≡ true) ↔ (s ≡ "")
is_empty_iff [] = ((λ h. refl), λ h. refl)
is_empty_iff (c ∷ s) = ((λ h. cc), λ h. cc)
