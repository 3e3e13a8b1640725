-- ===== src/Contracts/User.antt =====
-- contracts/user/v1/user.go. A reaction's type is a text, as in the source.
use articleflow.Prelude.{String, List}
use articleflow.Go.Time.{Time}

abbrev pub ReactionType : Type 0
ReactionType = String

abbrev pub reaction_like : ReactionType
reaction_like = "like"

abbrev pub reaction_dislike : ReactionType
reaction_dislike = "dislike"

abbrev pub reaction_skip : ReactionType
reaction_skip = "skip"

abbrev pub reaction_save : ReactionType
reaction_save = "save"

abbrev pub reaction_open : ReactionType
reaction_open = "open"

pub record UserReaction : Type 0 where
  pub user_id : String
  pub article_id : String
  pub type : ReactionType
  pub created_at : Time

pub record UserProfile : Type 0 where
  pub id : String
  pub email : String
  pub interests : List String
  pub created_at : Time
