-- ===== src/Contracts/Parser/Laws.antt =====
-- Normalising and validating a search query.
use articleflow.Prelude.{refl, ap, inr, inl, Bool-cases, ◌≢◌, ◌↔◌, false, ◌≡◌}
use articleflow.Prelude.Int.{pos, ◌≤ℤ◌}
use articleflow.Go.Text.{trim_space, is_empty}
use articleflow.Go.Text.Laws.{trim_space_idem, is_empty_iff}
use articleflow.Go.Result.{ok}
use articleflow.Contracts.Query.{
  clamp_limit_bounds, clamp_limit_fixed, clamp_offset_bound, clamp_offset_fixed,
}
use articleflow.Contracts.Parser.{if◌then◌else◌, String, SearchQuery, normalize, validate}

-- A query as the services use it.
pub record IsNormal (q : SearchQuery) : Type 0 where
  pub trimmed : trim_space q.text ≡ q.text
  pub limit_low : pos 1 ≤ℤ q.limit
  pub limit_high : q.limit ≤ℤ pos 100
  pub offset_low : pos 0 ≤ℤ q.offset
  pub has_language : is_empty (trim_space q.language) ≡ false

has_language :
    (l : String) → is_empty (trim_space (if is_empty (trim_space l) then "ru" else l)) ≡ false
unfolding trim_space
has_language l = elim (Bool-cases (is_empty (trim_space l))) [ inl e ↦ rw e refl | inr e ↦ rw e e ]

pub normalize-IsNormal : (q : SearchQuery) → IsNormal (normalize q)
unfolding normalize
normalize-IsNormal q = record {
  trimmed = trim_space_idem q.text;
  limit_low = (clamp_limit_bounds q.limit).0;
  limit_high = (clamp_limit_bounds q.limit).1;
  offset_low = clamp_offset_bound q.offset;
  has_language = has_language q.language;
}

normalize_of_IsNormal : (q : SearchQuery) → IsNormal q → normalize q ≡ q
unfolding normalize
normalize_of_IsNormal q n = simp (
  n.trimmed,
  clamp_limit_fixed q.limit n.limit_low n.limit_high,
  clamp_offset_fixed q.offset n.offset_low,
  n.has_language,
)

-- Normalising leaves exactly the queries alone that are normal, so that doing it again changes
-- nothing.
pub normalize_fixed : (q : SearchQuery) → (normalize q ≡ q) ↔ IsNormal q
normalize_fixed q = ((λ e. rw e at (normalize-IsNormal q)), normalize_of_IsNormal q)

pub normalize_idem : (q : SearchQuery) → normalize (normalize q) ≡ normalize q
normalize_idem q = normalize_of_IsNormal (normalize q) (normalize-IsNormal q)

pub validate_iff : (q : SearchQuery) → (validate q ≡ ok tt) ↔ (trim_space q.text ≢ "")
unfolding validate
validate_iff q = elim (Bool-cases (is_empty (trim_space q.text))) [
  | inl e ↦ rw e ((λ h. cc), (λ h. absurd (h ((is_empty_iff _).0 e))))
  | inr e ↦ rw e ((λ h k. cc (ap is_empty k)), (λ h. refl))
]
