-- ===== src/Gateway/Reactions/Tests.antt =====
-- Reactions as the gateway takes them.
use articleflow.Prelude.{refl, eqb, ltb, ◌/◌, ◌+◌, ℕ}
use articleflow.Prelude.Int.{pos_part}
use articleflow.Go.Float.{Float64}
use articleflow.Go.Text.{trim_space}
use articleflow.Gateway.Reactions.{ReactionRequest, to_reaction, reaction_user, cleaned_reaction}
use articleflow.Gateway.Reactions.Laws.{IsAccepted, to_reaction-IsAccepted}

abbrev whole_numbers : Float64
whole_numbers = record {
  Float = ℕ;
  of_int = pos_part;
  add = ◌+◌;
  div = ◌/◌;
  less = ltb;
  equal = eqb;
}

-- The user comes from the session.
abbrev request : ReactionRequest
request = record { user_id = " "; article_id = " habr:1"; type = "like " }

to_reaction-IsAccepted_example : IsAccepted whole_numbers (cleaned_reaction request 5 "u")
unfolding to_reaction trim_space reaction_user
to_reaction-IsAccepted_example =
    to_reaction-IsAccepted whole_numbers request 5 "u" (cleaned_reaction request 5 "u") refl refl
