-- ===== src/UserService/Tests.antt =====
-- Runs of the user service, and its theorems at concrete inputs.
use articleflow.Prelude.{◌⊎◌, ◌==◌, none, if◌then◌else◌, refl, some, ap, ◌≢◌, ◌≡◌, [], String}
use articleflow.Go.Text.{trim_space, is_empty, cat}
use articleflow.Go.Map.{lookup}
use articleflow.Go.Result.{ok, err}
use articleflow.Contracts.User.{UserReaction, UserProfile, reaction_like}
use articleflow.UserService.{
  new_reactions, reaction_key, ensure_profile, check_reaction, record_reaction, get_profile,
}
use articleflow.UserService.Laws.{
  IsConsistent, new_reactions-IsConsistent, record_reaction_lem, record_reaction-IsConsistent,
  record_reaction_clash,
}

abbrev like : String → String → UserReaction
like user article = record {
  user_id = user;
  article_id = article;
  type = reaction_like;
  created_at = 7;
}

abbrev profile : UserProfile
profile = record { id = " ann "; email = " a@b "; interests = []; created_at = 0 }

profile_test :
    (ensure_profile 5 new_reactions profile).1
    ≡ ok (record { id = "ann"; email = "a@b"; interests = []; created_at = 5 })
unfolding ensure_profile trim_space lookup
profile_test = refl

liked : check_reaction (like "ann" "habr:1") ≡ ok tt
unfolding check_reaction trim_space
liked = refl

liked_again : check_reaction (like "ann:x" "1") ≡ ok tt
unfolding check_reaction trim_space
liked_again = refl

liked_other : check_reaction (like "ann" "x:1") ≡ ok tt
unfolding check_reaction trim_space
liked_other = refl

blank : trim_space " ann " ≢ ""
unfolding trim_space
blank h = cc (ap is_empty h)

record_reaction_lem_example :
    ((check_reaction (like "ann" "habr:1") ≡ ok tt)
      × ((record_reaction 9 new_reactions (like "ann" "habr:1")).1 ≡ ok tt)
      × (lookup "k" (record_reaction 9 new_reactions (like "ann" "habr:1")).0.reactions ≡ (
          if reaction_key (like "ann" "habr:1") == "k"
          then some (like "ann" "habr:1")
          else lookup "k" []))
      × (get_profile (record_reaction 9 new_reactions (like "ann" "habr:1")).0 "ann" ≢ none))
    ⊎ ((message : String) × (check_reaction (like "ann" "habr:1") ≡ err message)
        × (record_reaction 9 new_reactions (like "ann" "habr:1") ≡ (new_reactions, err message)))
record_reaction_lem_example = record_reaction_lem 9 new_reactions (like "ann" "habr:1") "k"

record_reaction-IsConsistent_example :
    IsConsistent (record_reaction 9 new_reactions (like "ann" "habr:1")).0
record_reaction-IsConsistent_example =
    record_reaction-IsConsistent 9 new_reactions (like "ann" "habr:1") new_reactions-IsConsistent

record_reaction_clash_example :
    lookup
      (reaction_key (like "ann:x" "1"))
      (record_reaction 9
        (record_reaction 9 new_reactions (like "ann:x" "1")).0
        (like "ann" "x:1")).0.reactions
    ≡ some (like "ann" "x:1")
unfolding cat
record_reaction_clash_example =
    record_reaction_clash 9 new_reactions (like "ann:x" "1") (like "ann" "x:1") "ann" "x"
      liked_again liked_other refl refl refl refl
