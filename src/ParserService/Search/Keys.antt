-- ===== src/ParserService/Search/Keys.antt =====
-- Whether two candidates have a key in common, and the keys that the search has seen.
use articleflow.Prelude.{
  sym, ◌≡◌, ◌||◌, ◌==◌, Bool, true, false, List, [], ◌∷◌, String, any, every, refl, arith, eq_iff,
  Bool-cases, inl, inr, subst, mem-every,
}
use mathlib.Core.List.{Mem, not-mem-nil, eq-or-mem_of_mem-cons}
use mathlib.Core.Logic.Or
use mathlib.Core.Bool.{Bool-set}
use articleflow.Go.Map.{insert, Set, member, member-insert}
use articleflow.ParserService.Search.Candidates.{has_seen_candidate, mark_seen_candidate}

abbrev pub has : String → List String → Bool
has key keys = any (λ k. k == key) keys

abbrev pub shares : List String → List String → Bool
shares keys others = any (λ k. has k others) keys

shares-nil : (keys : List String) → shares keys [] ≡ false
shares-nil [] = refl
shares-nil (k ∷ keys) = shares-nil keys

shares-cons :
    (keys : List String) (key : String) (others : List String)
    → shares keys (key ∷ others) ≡ (has key keys || shares keys others)
shares-cons [] key others = refl
shares-cons (k ∷ keys) key others =
    ground (arith, shares-cons keys key others, eq_iff k key, eq_iff key k)

pub shares_comm : (keys others : List String) → shares keys others ≡ shares others keys
shares_comm [] others = sym (shares-nil others)
shares_comm (k ∷ keys) others = ground (arith, shares_comm keys others, shares-cons others k keys)

has-unseen :
    (seen : Set) (key : String) (keys : List String)
    → member key seen ≡ false
    → every (λ k. member k seen) keys ≡ true
    → has key keys ≡ false
has-unseen seen key [] h e = refl
has-unseen seen key (k ∷ keys) h e = elim (Bool-cases (k == key)) [
  | inl same ↦
      let is_seen : member k seen ≡ true = ground arith in
      let is_key : k ≡ key = (eq_iff k key).0 same in
      let clash : member key seen ≡ true = subst (λ t. member t seen ≡ true) is_key is_seen in cc
  | inr differs ↦ let rest = has-unseen seen key keys h (ground arith) in ground (arith, rest)
]

pub shares-unseen :
    (seen : Set) (keys others : List String)
    → has_seen_candidate seen keys ≡ false
    → every (λ k. member k seen) others ≡ true
    → shares keys others ≡ false
unfolding has_seen_candidate
shares-unseen seen [] others h e = refl
shares-unseen seen (k ∷ keys) others h e =
    let first = has-unseen seen k others (ground arith) e in
    let rest = shares-unseen seen keys others (ground arith) e in ground (arith, first, rest)

member-mark_seen_candidate :
    (seen : Set) (keys : List String) (key : String)
    → member key (mark_seen_candidate seen keys) ≡ (has key keys || member key seen)
unfolding mark_seen_candidate
member-mark_seen_candidate seen [] key = refl
member-mark_seen_candidate seen (k ∷ keys) key =
    ground
      (arith, member-mark_seen_candidate (insert k true seen) keys key, member-insert key k seen)

-- What was seen stays seen.
pub still_seen :
    (seen : Set) (keys others : List String)
    → every (λ k. member k seen) others ≡ true
    → every (λ k. member k (mark_seen_candidate seen keys)) others ≡ true
still_seen seen keys [] h = refl
still_seen seen keys (k ∷ others) h =
    let rest = still_seen seen keys others (ground arith) in
    ground (arith, rest, member-mark_seen_candidate seen keys k)

has-mem : (key : String) (keys : List String) → Mem key keys → has key keys ≡ true
has-mem key [] m = absurd (not-mem-nil m)
has-mem key (k ∷ keys) m =
    Or.elim (Bool-set (has key (k ∷ keys)) true) (eq-or-mem_of_mem-cons m)
      (λ same. ground (arith, (eq_iff k key).1 (sym same)))
      (λ later. ground (arith, has-mem key keys later))

pub now_seen :
    (seen : Set) (keys : List String)
    → every (λ k. member k (mark_seen_candidate seen keys)) keys ≡ true
now_seen seen keys =
    mem-every (λ k. member k (mark_seen_candidate seen keys)) keys
      (λ k m. ground (arith, has-mem k keys m, member-mark_seen_candidate seen keys k))
