-- ===== src/ParserService/Parsers/Workers/Laws.antt =====
-- The slots do not depend on the order in which the results come.
use articleflow.Prelude.{
  zero, none, length-append, map, arith, some, [], refl, ◌++◌, ◌∙◌, ap, sym, suc, length, ◌≡◌, ◌∷◌,
  Option, ℕ, get_elem?, List,
}
use mathlib.Core.List.{append_assoc, Permᴰ}
use articleflow.ParserService.Parsers.Workers.{no_results, collect_results, put_at}

module _ {ℓ} {B : Type ℓ} where
  put_at_comm :
      (f : ℕ → B) (i j : ℕ) (slots : List B)
      → put_at i (f i) (put_at j (f j) slots) ≡ put_at j (f j) (put_at i (f i) slots)
  put_at_comm f i j [] = refl
  put_at_comm f zero zero (x ∷ slots) = refl
  put_at_comm f zero (suc j) (x ∷ slots) = refl
  put_at_comm f (suc i) zero (x ∷ slots) = refl
  put_at_comm f (suc i) (suc j) (x ∷ slots) =
      ap (λ l. x ∷ l) (put_at_comm (λ n. f (suc n)) i j slots)

  put_at-middle :
      (before after : List B) (x y : B) (i : ℕ)
      → i ≡ length before
      → put_at i x (before ++ y ∷ after) ≡ before ++ x ∷ after
  put_at-middle [] after x y zero e = refl
  put_at-middle [] after x y (suc i) e = absurd (omega arith)
  put_at-middle (b ∷ before) after x y zero e = absurd (omega arith)
  put_at-middle (b ∷ before) after x y (suc i) e =
      ap (λ l. b ∷ l) (put_at-middle before after x y i (omega arith))

  pub collect_results-perm :
      (f : ℕ → B) (is js : List ℕ) (slots : List B)
      → Permᴰ is js
      → collect_results f is slots ≡ collect_results f js slots
  unfolding collect_results
  collect_results-perm f _ _ slots Permᴰ.nil = refl
  collect_results-perm f _ _ slots (Permᴰ.cons {b = b} {l₁ = l₁} {l₂ = l₂} e d) =
      rw e (collect_results-perm f l₁ l₂ (put_at b (f b) slots) d)
  collect_results-perm f _ _ slots (Permᴰ.swap {a = a} {b = b} {l = l} e₁ e₂) =
      rw (sym e₁, sym e₂) (ap (collect_results f l) (put_at_comm f b a slots))
  collect_results-perm f _ _ slots (Permᴰ.trans {l₁ = l₁} {l₂ = l₂} {l₃ = l₃} d₁ d₂) =
      collect_results-perm f l₁ l₂ slots d₁ ∙ collect_results-perm f l₂ l₃ slots d₂

-- The indexes of a list from a number on.
abbrev pub indexes_from {ℓ} : {A : Type ℓ} → ℕ → List A → List ℕ
indexes_from k [] = []
indexes_from k (x ∷ xs) = k ∷ indexes_from (suc k) xs

pub get_elem?-append {ℓ} :
    {A : Type ℓ} (before after : List A) (x : A)
    → get_elem? (before ++ x ∷ after) (length before) ≡ some x
get_elem?-append [] after x = refl
get_elem?-append (b ∷ before) after x = get_elem?-append before after x

-- The jobs put back in order fill the slots from the first on.
pub collect_results-in_order {ℓ κ} :
    {A : Type ℓ} {B : Type κ} (fetched : ℕ → Option B) (fetch : A → Option B) (before urls : List A)
    (slots : List (Option B))
    → length slots ≡ length before
    → ((after : List A) (x : A) (pre : List A)
        → pre ++ x ∷ after ≡ before ++ urls
        → fetched (length pre) ≡ fetch x)
    → collect_results fetched (indexes_from (length slots) urls) (slots ++ no_results urls)
      ≡ slots ++ map fetch urls
unfolding collect_results
collect_results-in_order fetched fetch before [] slots e known = refl
collect_results-in_order fetched fetch before (url ∷ urls) slots e known =
    let here : fetched (length slots) ≡ fetch url = rw e (known urls url before refl) in
    let longer : length (slots ++ fetch url ∷ []) ≡ suc (length slots) =
      omega (arith, length-append slots (fetch url ∷ [])) in
    let one_more = length-append before (url ∷ []) in
    let later =
      collect_results-in_order fetched fetch (before ++ url ∷ []) urls (slots ++ fetch url ∷ [])
        (omega arith)
        (λ after x pre same. known after x pre (same ∙ append_assoc before (url ∷ []) urls)) in
    let placed : put_at (length slots) (fetched (length slots)) (slots ++ none ∷ no_results urls)
        ≡ slots ++ fetch url ∷ no_results urls =
      put_at-middle slots (no_results urls) (fetched (length slots)) none (length slots) refl
      ∙ ap (λ x. slots ++ x ∷ no_results urls) here in
    let rest : collect_results fetched (indexes_from (suc (length slots)) urls)
          (slots ++ fetch url ∷ no_results urls)
        ≡ slots ++ fetch url ∷ map fetch urls =
      rw
        (
          sym longer,
          sym (append_assoc slots (fetch url ∷ []) (no_results urls)),
          sym (append_assoc slots (fetch url ∷ []) (map fetch urls)),
        )
        later in
    ap (collect_results fetched (indexes_from (suc (length slots)) urls)) placed ∙ rest
