-- ===== src/RoundRobin/Limited.antt =====
-- The rounds of interleaveCandidateBuckets, which stop at a limit.
use mathlib.Core.List.{append_assoc, append-nil}
use articleflow.Prelude.{
  length-perm, length-take, ◌∙◌, false, length-append, List-cases, true, Bool-cases, inr, inl, refl,
  sym, ap, take-nil, ◌+◌, ◌-◌, ◌≤◌, ◌≡◌, ℕ, zero, suc, List, [], ◌∷◌, ◌++◌, take, length, min, ltb,
  leb, arith,
}
use articleflow.RoundRobin.{pick, pick_limited, rounds_limited}
use articleflow.RoundRobin.Columns.{
  drop-cases, columns, leftover, pick-nil, columns-nil, columns-perm, leftover-suc,
}

module _ {ℓ} {A : Type ℓ} where
  take-append : (n : ℕ) (xs ys : List A) → take n (xs ++ ys) ≡ take n xs ++ take (n - length xs) ys
  take-append zero xs ys = let same : 0 ≡ 0 - length xs = omega arith in ap (λ k. take k ys) same
  take-append (suc n) [] ys = let same : suc n ≡ suc n - 0 = omega arith in ap (λ k. take k ys) same
  take-append (suc n) (x ∷ xs) ys =
      let same : suc n - suc (length xs) ≡ n - length xs = omega arith in
      rw same (ap (λ l. x ∷ l) (take-append n xs ys))

  take-none : (n : ℕ) (xs : List A) → n ≡ 0 → take n xs ≡ []
  take-none n xs h = rw h refl

  pick_limited-take :
      (limit room i : ℕ) (bs : List (List A)) (result : List A)
      → limit ≡ length result + suc room
      → pick_limited limit i bs result ≡ result ++ take (suc room) (pick i bs)
  unfolding pick pick_limited
  pick_limited-take limit room i [] result h = sym (append-nil result)
  pick_limited-take limit zero i (b ∷ bs) result h = elim (drop-cases i b) [
    | inl (e, d, d') ↦ rw (pick_limited, pick, e) (pick_limited-take limit zero i bs result h)
    | inr (x, e, d) ↦
        let full : leb limit (length (result ++ x ∷ [])) ≡ true =
          ground (arith, length-append result (x ∷ [])) in
        rw (pick_limited, pick, e, full) refl
  ]
  pick_limited-take limit (suc room) i (b ∷ bs) result h = elim (drop-cases i b) [
    | inl (e, d, d') ↦ rw (pick_limited, pick, e) (pick_limited-take limit (suc room) i bs result h)
    | inr (x, e, d) ↦
        let more : leb limit (length (result ++ x ∷ [])) ≡ false =
          ground (arith, length-append result (x ∷ [])) in
        rw (pick_limited, pick, e, more)
          (pick_limited-take limit room i bs (result ++ x ∷ [])
              (omega (arith, length-append result (x ∷ [])))
            ∙ append_assoc result (x ∷ []) (take (suc room) (pick i bs)))
  ]

  cut_rounds :
      (n m : ℕ) (result picked now later : List A)
      → picked ≡ result ++ take n now
      → m ≡ n - length now
      → picked ++ take m later ≡ result ++ take n (now ++ later)
  cut_rounds n m result picked now later e same =
      rw (e, same, take-append n now later)
        (append_assoc result (take n now) (take (n - length now) later))

  rounds_limited-take :
      (fuel limit i : ℕ) (bs : List (List A)) (result : List A)
      → length result ≤ limit
      → rounds_limited fuel limit i bs result
        ≡ result ++ take (limit - length result) (columns fuel i bs)
  unfolding columns rounds_limited
  rounds_limited-take zero limit i bs result h =
      rw (take-nil (limit - length result)) (sym (append-nil result))
  rounds_limited-take (suc fuel) limit i bs result h =
      elim (Bool-cases (ltb (length result) limit)) [
        | inr full ↦
            rw (full, take-none (limit - length result) (columns (suc fuel) i bs) (ground arith))
              (sym (append-nil result))
        | inl more ↦
            let room = limit - length result - 1 in
            let n = limit - length result in
            let result' = pick_limited limit i bs result in
            let has_room : n ≡ suc room = ground arith in
            let exact : limit ≡ length result + suc room = ground arith in
            let picked : result' ≡ result ++ take n (pick i bs) =
              rw has_room (pick_limited-take limit room i bs result exact) in
            let size : length result' ≡ length result + min n (length (pick i bs)) =
              rw (picked, length-append result (take n (pick i bs)), length-take n (pick i bs))
                refl in
            elim (List-cases (pick i bs)) [
              | inl e ↦
                  let none_added : length (pick i bs) ≡ 0 = rw e refl in
                  let same : ltb (length result) (length result') ≡ false = ground arith in
                  let rest_nil = leftover-suc i bs (pick-nil i bs e) in
                  rw (more, same, e, columns-nil fuel (suc i) bs rest_nil, take-nil n)
                    (sym (append-nil result))
              | inr (x, xs, e) ↦
                  let some_added : length (pick i bs) ≡ suc (length xs) = rw e refl in
                  let grew : ltb (length result) (length result') ≡ true = ground arith in
                  rw (more, grew)
                    (rounds_limited-take fuel limit (suc i) bs result' (omega arith)
                      ∙ cut_rounds n (limit - length result') result result' (pick i bs)
                          (columns fuel (suc i) bs) picked (omega arith))
            ]
      ]

  -- The limit cuts the columns short, and nothing else does.
  pub rounds_limited-columns :
      (fuel limit : ℕ) (bs : List (List A))
      → rounds_limited fuel limit 0 bs [] ≡ take limit (columns fuel 0 bs)
  rounds_limited-columns fuel limit bs =
      let same : limit - 0 ≡ limit = omega arith in
      rounds_limited-take fuel limit 0 bs [] (omega arith)
      ∙ ap (λ n. take n (columns fuel 0 bs)) same

  -- With one round more than there are items, as many items as there are, up to the limit.
  pub length-rounds_limited :
      (fuel limit : ℕ) (bs : List (List A))
      → length (leftover 0 bs) ≤ fuel
      → length (rounds_limited fuel limit 0 bs []) ≡ min limit (length (leftover 0 bs))
  length-rounds_limited fuel limit bs enough =
      rw
        (
          rounds_limited-columns fuel limit bs,
          length-take limit (columns fuel 0 bs),
          length-perm (columns-perm fuel 0 bs enough),
        )
        refl
