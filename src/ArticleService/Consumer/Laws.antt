-- ===== src/ArticleService/Consumer/Laws.antt =====
-- What the consumer loop commits.
use mathlib.Core.List.{append_assoc, append-nil}
use articleflow.Prelude.{
  ◌≡◌, ◌≤◌, String, Bool, true, false, List, [], ◌∷◌, ◌++◌, length, Option, none, some, refl, sym,
  ap, ◌∙◌, arith, Bool-cases, Option-cases, inl, inr, length-append,
}
use articleflow.Prelude.Int.{ℤ, pos, pos_part, leb_ℤ}
use articleflow.ArticleService.Consumer.{
  Message, Fetched, message, closed, broken, Consumed, consume_from, consume, is_full,
}

-- The messages that Fetch gives.
abbrev pub messages : List Fetched → List Message
messages [] = []
messages (message m ∷ fetches) = m ∷ messages fetches
messages (closed ∷ fetches) = messages fetches
messages (broken e ∷ fetches) = messages fetches

-- What a loop that had committed `done` commits: the messages in their order, as far as it gets, and no
-- more than the limit; at most one more is handled, and none where there is no error.
pub record IsOrderly {S : Type 0} (max_messages : ℤ) (done given : List Message) (c : Consumed S)
    : Type 0 where
  pub first : List Message
  pub left : List Message
  pub uncommitted : List Message
  pub split : given ≡ first ++ left
  pub commits : c.committed ≡ done ++ first
  pub handles : c.handled ≡ c.committed ++ uncommitted
  pub one_ahead : length uncommitted ≤ 1
  pub all_committed : c.error ≡ none → uncommitted ≡ []
  pub bounded :
      leb_ℤ max_messages (pos 0) ≡ false
      → length done ≤ pos_part max_messages
      → length c.committed ≤ pos_part max_messages

module _ {S : Type 0} (handler : S → Message → S × Option String) (commit : Message → Option String)
    (max_messages : ℤ) where
  stays-IsOrderly :
      (s : S) (done given : List Message) (returned : Bool) (e : Option String)
      → IsOrderly max_messages done given
          (record { state = s; handled = done; committed = done; returned = returned; error = e })
  stays-IsOrderly s done given returned e = record {
    first = [];
    left = given;
    uncommitted = [];
    split = refl;
    commits = sym (append-nil done);
    handles = sym (append-nil done);
    one_ahead = omega arith;
    all_committed = λ h. refl;
    bounded = λ limited h. h;
  }

  consume_from-IsOrderly :
      (s : S) (done : List Message) (fetches : List Fetched)
      → IsOrderly max_messages done
          (messages fetches)
          (consume_from handler commit max_messages s done fetches)
  unfolding consume_from
  consume_from-IsOrderly s done [] = stays-IsOrderly s done [] _ none
  consume_from-IsOrderly s done (closed ∷ fetches) =
      stays-IsOrderly s done (messages fetches) true none
  consume_from-IsOrderly s done (broken e ∷ fetches) =
      stays-IsOrderly s done (messages fetches) true _
  consume_from-IsOrderly s done (message m ∷ fetches) =
      let given = m ∷ messages fetches in
      let s' = (handler s m).0 in
      let done' = done ++ m ∷ [] in
      elim (Bool-cases (is_full handler commit max_messages (length done))) [
        | inl full ↦ rw (consume_from, full) (stays-IsOrderly s done given true none)
        | inr more ↦ elim (Option-cases (handler s m).1) [
          | inr (e, failed) ↦
              rw (consume_from, more, failed) (stays-IsOrderly s' done given true (some e))
          | inl worked ↦ elim (Option-cases (commit m)) [
            | inr (e, refused) ↦
                rw (consume_from, more, worked, refused)
                  (record {
                    first = [];
                    left = given;
                    uncommitted = m ∷ [];
                    split = refl;
                    commits = sym (append-nil done);
                    handles = refl;
                    one_ahead = omega arith;
                    all_committed = λ h. cc;
                    bounded = λ limited h. h;
                  })
            | inl taken ↦
                let rest = consume_from-IsOrderly s' done' fetches in
                rw (consume_from, more, worked, taken)
                  (record {
                    first = m ∷ rest.first;
                    left = rest.left;
                    uncommitted = rest.uncommitted;
                    split = ap (λ l. m ∷ l) rest.split;
                    commits = rest.commits ∙ append_assoc done (m ∷ []) rest.first;
                    handles = rest.handles;
                    one_ahead = rest.one_ahead;
                    all_committed = rest.all_committed;
                    bounded = λ limited h.
                        rest.bounded limited (ground (arith, length-append done (m ∷ [])));
                  })
          ]
        ]
      ]

  -- Whatever the handler, the broker and Fetch do, the loop commits the messages in their order without
  -- leaving one out, up to the limit if there is one, and at most one message is handled without being
  -- committed, none where the loop ends without an error.
  pub consume-IsOrderly :
      (s : S) (fetches : List Fetched)
      → IsOrderly max_messages [] (messages fetches) (consume handler commit max_messages s fetches)
  unfolding consume
  consume-IsOrderly s fetches = consume_from-IsOrderly s [] fetches
