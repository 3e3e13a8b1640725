-- ===== src/UserService/Laws.antt =====
-- Reactions have profiles, and a profile keeps its id and its date.
use articleflow.Go.Result.{Result, Result-cases}
use articleflow.Prelude.{
  ◌⊎◌, ◌==◌, ◌∙◌, ap, if◌then◌else◌, false, ◌≢◌, Bool-cases, none, eq_iff, inr, sym, inl, subst,
  Option-cases, arith, ◌≡◌, some, String,
}
use articleflow.Go.Time.{Time}
use text.Mathlib.TextLemmas.{append_assoc}
use articleflow.Go.Text.{cat, trim_space, is_empty}
use articleflow.Go.Text.Laws.{is_empty_iff, trim_space_idem}
use articleflow.Go.Map.{lookup-insert_self, lookup, insert, lookup-insert}
use articleflow.Contracts.User.{UserReaction, UserProfile}
use articleflow.UserService.{
  new_reactions, reaction_profile, put_reaction, err, reaction_key, record_reaction, ok,
  check_reaction, MemoryReactions, clean_profile, update_profile, put_profile, ensure_profile,
  get_profile,
}

-- Profiles are filed under their own trimmed id, and every reaction's user has one.
pub record IsConsistent (s : MemoryReactions) : Type 0 where
  pub own_id : (id : String) (p : UserProfile) → lookup id s.profiles ≡ some p → p.id ≡ id
  pub trimmed : (id : String) (p : UserProfile) → lookup id s.profiles ≡ some p → trim_space id ≡ id
  pub known :
      (key : String) (r : UserReaction)
      → lookup key s.reactions ≡ some r
      → get_profile s r.user_id ≢ none

-- What put_profile files.
kept_profile : MemoryReactions → UserProfile → UserProfile
kept_profile s p = elim (lookup p.id s.profiles) [
  | some existing ↦ update_profile existing p
  | none ↦ p
]

put_profile_lem :
    (s : MemoryReactions) (p : UserProfile)
    → put_profile s p
      ≡ (record s { profiles = insert p.id (kept_profile s p) s.profiles }, kept_profile s p)
unfolding put_profile kept_profile
put_profile_lem s p = ground arith

kept_profile-id :
    (s : MemoryReactions) (p : UserProfile) → IsConsistent s → (kept_profile s p).id ≡ p.id
unfolding kept_profile update_profile
kept_profile-id s p h = elim (Option-cases (lookup p.id s.profiles)) [
  | inl e ↦ rw (e, kept_profile)
  | inr (q, e) ↦ rw (e, kept_profile) (h.own_id p.id q e)
]

put_profile-IsConsistent :
    (s : MemoryReactions) (p : UserProfile)
    → trim_space p.id ≡ p.id
    → IsConsistent s
    → IsConsistent (put_profile s p).0
unfolding get_profile
put_profile-IsConsistent s p t h =
    subst (λ r. IsConsistent (r.0)) (sym (put_profile_lem s p))
      (record {
        own_id = λ id q e. ground (
          arith,
          lookup-insert p.id id (kept_profile s p) s.profiles,
          eq_iff p.id id,
          kept_profile-id s p h,
          h.own_id id q,
        );
        trimmed = λ id q e. ground (
          arith,
          lookup-insert p.id id (kept_profile s p) s.profiles,
          eq_iff p.id id,
          h.trimmed id q,
        );
        known = λ key r e q. h.known key r e (
            ground
              (arith, lookup-insert p.id (trim_space r.user_id) (kept_profile s p) s.profiles));
      })

pub ensure_profile-IsConsistent :
    (now : Time) (s : MemoryReactions) (p : UserProfile)
    → IsConsistent s
    → IsConsistent (ensure_profile now s p).0
unfolding ensure_profile
ensure_profile-IsConsistent now s p h = elim (Bool-cases (is_empty (clean_profile now p).id)) [
  | inl e ↦ rw (e, ensure_profile) h
  | inr e ↦
      rw (e, ensure_profile)
        (put_profile-IsConsistent s (clean_profile now p) (trim_space_idem p.id) h)
]

ensure_profile_filled :
    (now : Time) (s : MemoryReactions) (p : UserProfile)
    → is_empty (trim_space p.id) ≡ false
    → ensure_profile now s p
      ≡ ((put_profile s (clean_profile now p)).0, ok (kept_profile s (clean_profile now p)))
unfolding ensure_profile clean_profile
ensure_profile_filled now s p e = rw (e, ensure_profile, put_profile_lem s (clean_profile now p))

kept_profile_old :
    (s : MemoryReactions) (p : UserProfile) (now : Time) (old : UserProfile)
    → lookup (trim_space p.id) s.profiles ≡ some old
    → ((kept_profile s (clean_profile now p)).created_at ≡ old.created_at)
      × ((kept_profile s (clean_profile now p)).email
          ≡ (if is_empty (trim_space p.email) then old.email else trim_space p.email))
unfolding kept_profile clean_profile update_profile
kept_profile_old s p now old e = (rw (e, kept_profile), rw (e, kept_profile))

kept_profile_new :
    (s : MemoryReactions) (p : UserProfile) (now : Time)
    → lookup (trim_space p.id) s.profiles ≡ none
    → kept_profile s (clean_profile now p) ≡ clean_profile now p
unfolding kept_profile clean_profile
kept_profile_new s p now e = rw (e, kept_profile)

-- A profile with a user id is what that id finds from then on, and it is returned. One that was
-- there keeps its date, and takes over an email that is given; a new one is taken as it is given,
-- trimmed, dated now where it has no date.
pub ensure_profile_lem :
    (now : Time) (s : MemoryReactions) (p : UserProfile)
    → trim_space p.id ≢ ""
    → (q : UserProfile) × ((ensure_profile now s p).1 ≡ ok q)
      × (get_profile (ensure_profile now s p).0 p.id ≡ some q)
      × ((old : UserProfile)
          → get_profile s p.id ≡ some old
          → (q.created_at ≡ old.created_at)
            × (q.email ≡ (if is_empty (trim_space p.email) then old.email else trim_space p.email)))
      × (get_profile s p.id ≡ none → q ≡ clean_profile now p)
unfolding get_profile clean_profile
ensure_profile_lem now s p filled = (
  kept_profile s (clean_profile now p),
  ap (λ r. r.1) done,
  ap (λ r. lookup (trim_space p.id) r.0.profiles) done
      ∙ (ap (λ r. lookup (trim_space p.id) r.0.profiles) (put_profile_lem s (clean_profile now p))
          ∙ lookup-insert_self (trim_space p.id) (kept_profile s (clean_profile now p)) s.profiles),
  (λ old e. kept_profile_old s p now old e),
  (λ e. kept_profile_new s p now e),
)
  where
    done :
        ensure_profile now s p
        ≡ ((put_profile s (clean_profile now p)).0, ok (kept_profile s (clean_profile now p)))
    done = ensure_profile_filled now s p (ground (arith, is_empty_iff (trim_space p.id)))

filled_user :
    (r : UserReaction) → check_reaction r ≡ ok tt → is_empty (trim_space r.user_id) ≡ false
unfolding check_reaction
filled_user r h = ground arith

record_valid :
    (now : Time) (s : MemoryReactions) (r : UserReaction)
    → check_reaction r ≡ ok tt
    → record_reaction now s r
      ≡ (put_reaction r (put_profile s (clean_profile now (reaction_profile r))).0, ok tt)
unfolding record_reaction
record_valid now s r h =
    let ensured = ensure_profile_filled now s (reaction_profile r) (filled_user r h) in
    rw (h, record_reaction, ensured)
      (ap (λ (x : MemoryReactions × Result UserProfile). (put_reaction r x.0, ok tt)) ensured)

user_has_profile :
    (now : Time) (s : MemoryReactions) (r : UserReaction)
    → lookup
        (trim_space r.user_id)
        (put_profile s (clean_profile now (reaction_profile r))).0.profiles
      ≢ none
unfolding clean_profile
user_has_profile now s r h = cc (
  lookup-insert_self (trim_space r.user_id)
      (kept_profile s (clean_profile now (reaction_profile r))) s.profiles,
  ap (λ (x : MemoryReactions × UserProfile). lookup (trim_space r.user_id) x.0.profiles)
      (put_profile_lem s (clean_profile now (reaction_profile r))),
)

put_reaction-IsConsistent :
    (s : MemoryReactions) (r : UserReaction)
    → IsConsistent s
    → lookup (trim_space r.user_id) s.profiles ≢ none
    → IsConsistent (put_reaction r s)
unfolding get_profile
put_reaction-IsConsistent s r h p = record {
  own_id = h.own_id;
  trimmed = h.trimmed;
  known =
      λ key q e. ground (arith, lookup-insert (reaction_key r) key r s.reactions, h.known key q);
}

-- Record files a valid reaction under its key and makes sure of its user's profile; it refuses any
-- other with the error of the first check that fails, and changes nothing.
pub record_reaction_lem :
    (now : Time) (s : MemoryReactions) (r : UserReaction) (key : String)
    → ((check_reaction r ≡ ok tt)
        × ((record_reaction now s r).1 ≡ ok tt)
        × (lookup key (record_reaction now s r).0.reactions
            ≡ (if reaction_key r == key then some r else lookup key s.reactions))
        × (get_profile (record_reaction now s r).0 r.user_id ≢ none))
      ⊎ ((message : String) × (check_reaction r ≡ err message)
          × (record_reaction now s r ≡ (s, err message)))
unfolding record_reaction get_profile
record_reaction_lem now s r key = elim (Result-cases (check_reaction r)) [
  | inr (message, e) ↦ inr (message, e, rw (e, record_reaction))
  | inl (_, e) ↦ inl (
    e,
    ap (λ x. x.1) (record_valid now s r e),
    rw (record_valid now s r e, put_profile_lem s (clean_profile now (reaction_profile r)))
        (lookup-insert (reaction_key r) key r s.reactions),
    rw (record_valid now s r e, get_profile) (user_has_profile now s r),
  )
]

-- Recording a reaction, valid or not, keeps the store consistent: each profile stands under its own
-- id, which is trimmed, and the user of each reaction has a profile.
pub record_reaction-IsConsistent :
    (now : Time) (s : MemoryReactions) (r : UserReaction)
    → IsConsistent s
    → IsConsistent (record_reaction now s r).0
unfolding record_reaction
record_reaction-IsConsistent now s r h = elim (Result-cases (check_reaction r)) [
  | inr (message, e) ↦ rw (e, record_reaction) h
  | inl (_, e) ↦
      let P = clean_profile now (reaction_profile r) in
      let k = put_profile-IsConsistent s P (trim_space_idem r.user_id) h in
      rw (record_valid now s r e)
        (put_reaction-IsConsistent (put_profile s P).0 r k (user_has_profile now s r))
]

pub new_reactions-IsConsistent : IsConsistent new_reactions
unfolding lookup
new_reactions-IsConsistent = record {
  own_id = λ id p e. cc;
  trimmed = λ id p e. cc;
  known = λ key r e. cc;
}

key_clash :
    (r q : UserReaction) (first second : String)
    → r.user_id ≡ cat first (cat ":" second)
    → q.user_id ≡ first
    → q.article_id ≡ cat second (cat ":" r.article_id)
    → q.type ≡ r.type
    → reaction_key q ≡ reaction_key r
unfolding reaction_key cat
key_clash r q first second ru qu qa qt = rw (ru, qu, qa, qt) (simp append_assoc)

-- The keys of reactions are not told apart by user and article: where the id of one user is the id
-- of another, a colon and the beginning of an article id, a valid reaction of the second user to the
-- article takes the place of the first user's reaction of the same type, which is then not found
-- under its own key.
pub record_reaction_clash :
    (now : Time) (s : MemoryReactions) (r q : UserReaction) (first second : String)
    → check_reaction r ≡ ok tt
    → check_reaction q ≡ ok tt
    → r.user_id ≡ cat first (cat ":" second)
    → q.user_id ≡ first
    → q.article_id ≡ cat second (cat ":" r.article_id)
    → q.type ≡ r.type
    → lookup (reaction_key r) (record_reaction now (record_reaction now s r).0 q).0.reactions
      ≡ some q
record_reaction_clash now s r q first second rok qok ru qu qa qt =
    rw (record_valid now (record_reaction now s r).0 q qok, key_clash r q first second ru qu qa qt)
      (lookup-insert_self (reaction_key r) q
        (put_profile (record_reaction now s r).0
          (clean_profile now (reaction_profile q))).0.reactions)
