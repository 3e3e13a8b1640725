-- ===== src/UserService.antt =====
-- services/user-service/internal/usecase/reactions.go: reactions and profiles in memory. `now` is
-- the value of time.Now().
pub mod Laws
mod Tests
use articleflow.Prelude.{
  false, ◌∷◌, none, ◌==◌, true, keep_if, Option, Bool, if◌then◌else◌, String, some, List, [],
}
use articleflow.Go.Time.{Time, is_zero}
use articleflow.Go.Text.{trim_space, is_empty, cat}
use articleflow.Go.Map.{Map, lookup, insert, values}
use articleflow.Go.Result.{Result, ok, err, reject_if, ◌>>=◌, ◌>>◌}
use articleflow.Contracts.User.{UserReaction, UserProfile}

pub record MemoryReactions : Type 0 where
  pub reactions : Map UserReaction
  pub profiles : Map UserProfile

abbrev pub new_reactions : MemoryReactions
new_reactions = record { reactions = []; profiles = [] }

unfoldable pub reaction_key : UserReaction → String
unfolding cat
reaction_key reaction =
    cat reaction.user_id (cat ":" (cat reaction.article_id (cat ":" reaction.type)))

-- What EnsureProfile makes of its argument before it looks at the store.
unfoldable pub clean_profile : Time → UserProfile → UserProfile
clean_profile now profile = record {
  id = trim_space profile.id;
  email = trim_space profile.email;
  interests = profile.interests;
  created_at = if is_zero profile.created_at then now else profile.created_at;
}

abbrev no_interests : UserProfile → Bool
no_interests profile = elim profile.interests [ [] ↦ true | _ ∷ _ ↦ false ]

-- A known profile takes the email and the interests that are given.
unfoldable pub update_profile : UserProfile → UserProfile → UserProfile
update_profile existing profile = record existing {
  email = if is_empty profile.email then existing.email else profile.email;
  interests = if no_interests profile then existing.interests else profile.interests;
}

-- The store and the profile that it holds from then on.
unfoldable pub put_profile : MemoryReactions → UserProfile → MemoryReactions × UserProfile
put_profile store profile = elim (lookup profile.id store.profiles) [
  | some existing ↦ (
    record store { profiles = insert profile.id (update_profile existing profile) store.profiles },
    update_profile existing profile,
  )
  | none ↦ (record store { profiles = insert profile.id profile store.profiles }, profile)
]

unfoldable pub ensure_profile :
    Time → MemoryReactions → UserProfile → MemoryReactions × Result UserProfile
unfolding clean_profile put_profile
ensure_profile now store profile =
    if is_empty (clean_profile now profile).id
    then (store, err "user id is required")
    else let (store', kept) = put_profile store (clean_profile now profile) in (store', ok kept)

-- The four checks of Record.
unfoldable pub check_reaction : UserReaction → Result (Unit {0})
check_reaction reaction = do
  reject_if (is_empty (trim_space reaction.user_id)) "user id is required"
  reject_if (is_empty (trim_space reaction.article_id)) "article id is required"
  reject_if (is_empty (trim_space reaction.type)) "reaction type is required"
  reject_if (is_zero reaction.created_at) "created at is required"
  ok tt

-- The profile that Record ensures.
abbrev pub reaction_profile : UserReaction → UserProfile
reaction_profile reaction = record {
  id = reaction.user_id;
  email = "";
  interests = [];
  created_at = reaction.created_at;
}

abbrev pub put_reaction : UserReaction → MemoryReactions → MemoryReactions
put_reaction reaction store = record store {
  reactions = insert (reaction_key reaction) reaction store.reactions;
}

unfoldable pub record_reaction :
    Time → MemoryReactions → UserReaction → MemoryReactions × Result (Unit {0})
unfolding check_reaction ensure_profile
record_reaction now store reaction = elim (check_reaction reaction) [
  | err e ↦ (store, err e)
  | ok _ ↦
      let (store', ensured) = ensure_profile now store (reaction_profile reaction) in
      elim ensured [ err e ↦ (store', err e) | ok _ ↦ (put_reaction reaction store', ok tt) ]
]

unfoldable pub get_profile : MemoryReactions → String → Option UserProfile
get_profile store user_id = lookup (trim_space user_id) store.profiles

-- `visited` is the reactions of the map in the order in which Go ranges over them.
unfoldable pub list_by_user : List UserReaction → String → List UserReaction
list_by_user visited user_id = keep_if (λ reaction. reaction.user_id == user_id) visited
