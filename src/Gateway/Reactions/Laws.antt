-- ===== src/Gateway/Reactions/Laws.antt =====
-- What the services behind the gateway make of a reaction that it accepts.
use articleflow.Go.Text.Laws.{trim_space_idem}
use articleflow.Prelude.Int.{pos, negsuc}
use articleflow.Prelude.{
  eq_iff, sym, ◌==◌, refl, ap, subst, inr, arith, inl, Bool-cases, true, false, ◌≡◌, String,
}
use articleflow.Go.Text.{is_empty, trim_space}
use articleflow.Go.Time.{Time, is_zero}
use articleflow.Go.Float.{Float64}
use articleflow.Contracts.User.{
  reaction_open, reaction_save, reaction_skip, reaction_dislike, reaction_like, UserReaction,
}
use articleflow.Contracts.Events.{validate_reaction}
use articleflow.UserService.{check_reaction}
use articleflow.Ranking.Signals.{reaction_weight}
use articleflow.Gateway.Reactions.{
  err, Result, ok, ReactionRequest, to_reaction, event_of_reaction, is_allowed_reaction_type,
  cleaned_reaction, reaction_user,
}

-- A reaction whose texts are trimmed and filled, of a known type.
record IsClean (now : Time) (reaction : UserReaction) : Type 0 where
  user_id : is_empty (trim_space reaction.user_id) ≡ false
  article_id : is_empty (trim_space reaction.article_id) ≡ false
  type : is_allowed_reaction_type reaction.type ≡ true
  created_at : reaction.created_at ≡ now

reaction_user_fixed :
    (request : ReactionRequest) (fallback : String)
    → trim_space (reaction_user request fallback) ≡ reaction_user request fallback
unfolding reaction_user
reaction_user_fixed request fallback = elim (Bool-cases (is_empty (trim_space request.user_id))) [
  | inl blank ↦ rw blank (trim_space_idem fallback)
  | inr filled ↦ rw filled (trim_space_idem request.user_id)
]

to_reaction-IsClean :
    (request : ReactionRequest) (now : Time) (fallback : String) (reaction : UserReaction)
    → to_reaction request now fallback ≡ ok reaction
    → IsClean now reaction
unfolding to_reaction
to_reaction-IsClean request now fallback reaction e =
    let cleaned = cleaned_reaction request now fallback in
    elim (Bool-cases (is_empty cleaned.user_id)) [
      | inl blank ↦ ground (arith, rw (to_reaction, blank) at e)
      | inr user ↦ elim (Bool-cases (is_empty cleaned.article_id)) [
        | inl blank ↦ ground (arith, rw (to_reaction, user, blank) at e)
        | inr article ↦ elim (Bool-cases (is_allowed_reaction_type cleaned.type)) [
          | inr unknown ↦ ground (arith, rw (to_reaction, user, article, unknown) at e)
          | inl known ↦
              subst (IsClean now)
                (ap (λ (r : Result UserReaction). elim r [ ok x ↦ x | err _ ↦ cleaned ])
                  (rw (to_reaction, user, article, known) at e))
                (record {
                  user_id = rw (reaction_user_fixed request fallback) user;
                  article_id = rw (trim_space_idem request.article_id) article;
                  type = known;
                  created_at = refl;
                })
        ]
      ]
    ]

-- A property of the five types holds of each type that is allowed.
allowed_induction :
    (P : String → Type 0)
    → P reaction_like
    → P reaction_dislike
    → P reaction_skip
    → P reaction_save
    → P reaction_open
    → (type : String) → is_allowed_reaction_type type ≡ true
    → P type
allowed_induction P like dislike skip saved opened type allowed =
    elim (Bool-cases (type == reaction_like)) [
      | inl same ↦ subst P (sym ((eq_iff type reaction_like).0 same)) like
      | inr not_like ↦ elim (Bool-cases (type == reaction_dislike)) [
        | inl same ↦ subst P (sym ((eq_iff type reaction_dislike).0 same)) dislike
        | inr not_dislike ↦ elim (Bool-cases (type == reaction_skip)) [
          | inl same ↦ subst P (sym ((eq_iff type reaction_skip).0 same)) skip
          | inr not_skip ↦ elim (Bool-cases (type == reaction_save)) [
            | inl same ↦ subst P (sym ((eq_iff type reaction_save).0 same)) saved
            | inr not_save ↦
                subst P
                  (sym (
                    (eq_iff type reaction_open).0
                      (ground (arith, rw (not_like, not_dislike, not_skip, not_save) at allowed))))
                  opened
          ]
        ]
      ]
    ]

allowed_filled :
    (type : String) → is_allowed_reaction_type type ≡ true → is_empty (trim_space type) ≡ false
unfolding trim_space
allowed_filled =
    allowed_induction (λ type. is_empty (trim_space type) ≡ false) refl refl refl refl refl

allowed_weight :
    (f : Float64) (type : String)
    → is_allowed_reaction_type type ≡ true
    → (weight : f.Float) × (reaction_weight f type ≡ ok weight)
unfolding reaction_weight
allowed_weight f =
    allowed_induction (λ type. (weight : f.Float) × (reaction_weight f type ≡ ok weight))
      (f.of_int (pos 4), refl) (f.of_int (negsuc 7), refl) (f.of_int (negsuc 2), refl)
      (f.of_int (pos 8), refl) (f.of_int (pos 1), refl)

-- What the user service, the event of the broker and the ranking service check of a reaction: no
-- check fails.
abbrev pub IsAccepted : Float64 → UserReaction → Type 0
IsAccepted f reaction =
    (check_reaction reaction ≡ ok tt)
    × (validate_reaction (event_of_reaction reaction) ≡ ok tt)
    × ((weight : f.Float) × (reaction_weight f reaction.type ≡ ok weight))

clean-IsAccepted :
    (f : Float64) (now : Time) (reaction : UserReaction)
    → is_zero now ≡ false
    → IsClean now reaction
    → IsAccepted f reaction
unfolding check_reaction validate_reaction reaction_weight
clean-IsAccepted f now reaction clock clean =
    let typed = allowed_filled reaction.type clean.type in
    let dated : is_zero reaction.created_at ≡ false = rw clean.created_at clock in
    (
      rw (check_reaction, clean.user_id, clean.article_id, typed, dated) refl,
      rw (validate_reaction, clean.user_id, clean.article_id, typed, dated) refl,
      allowed_weight f reaction.type clean.type,
    )

-- A reaction that the gateway makes of a request passes all checks of the services that it is sent
-- to, and has a weight in the ranking.
pub to_reaction-IsAccepted :
    (f : Float64) (request : ReactionRequest) (now : Time) (fallback : String)
    (reaction : UserReaction)
    → is_zero now ≡ false
    → to_reaction request now fallback ≡ ok reaction
    → IsAccepted f reaction
to_reaction-IsAccepted f request now fallback reaction clock e =
    clean-IsAccepted f now reaction clock (to_reaction-IsClean request now fallback reaction e)
