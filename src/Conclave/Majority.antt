-- ===== src/Conclave/Majority.antt =====
-- The election by numbers, elect_numeric of src/core/conclave.cpp.
use sovranx.Conclave.{votes, numeric, poll, final_number, Scores, elect_numeric}
use sovranx.Prelude.{
  ℕ, zero, suc, ◌+◌, ◌*◌, ◌≤◌, ◌<◌, ◌≡◌, ◌≢◌, refl, sym, ap, ◌∙◌, subst, ◌⊎◌, inl, inr, Bool, true,
  false, not, ◌&&◌, Bool-cases, List, [], ◌∷◌, ◌++◌, append_assoc, map, length-map, Bytes, length,
  get_or, length-append, leb, ltb, ◌==◌, ◌===◌, ===_iff, if◌then◌else◌, arith,
}

pub votes_le : (num : Bytes) (numbers : List Bytes) → votes num numbers ≤ length numbers
unfolding votes
votes_le num [] = omega arith
votes_le num (x ∷ numbers) = ground (arith, votes_le num numbers)

-- Two numbers share the votes, so that only one can have most of them.
pub votes_share :
    (a b : Bytes) (numbers : List Bytes)
    → a ≢ b
    → votes a numbers + votes b numbers ≤ length numbers
unfolding votes
votes_share a b [] h = omega arith
votes_share a b (x ∷ numbers) h =
    ground (arith, votes_share a b numbers h, ===_iff x a, ===_iff x b)

-- Each vote for a number that is not empty is one of a number.
pub votes-numeric :
    (num : Bytes) (numbers : List Bytes) → 0 < length num → votes num numbers ≤ numeric numbers
unfolding votes numeric
votes-numeric num [] h = omega arith
votes-numeric num (x ∷ numbers) h = ground (arith, votes-numeric num numbers h, ===_iff x num)

-- Either the majority's number is still to come and the best has fewer votes, or it is the best.
Polled : List Bytes → Bytes → List Bytes → ℕ → ℕ → Type 0
Polled all num numbers best best_votes =
    ((best_votes < votes num all) × (0 < votes num numbers))
    ⊎ ((get_or all best [] ≡ num) × (best_votes ≡ votes num all))

get_or-append :
    (front : List Bytes) (x : Bytes) (numbers : List Bytes)
    → get_or (front ++ (x ∷ numbers)) (length front) [] ≡ x
get_or-append [] x numbers = refl
get_or-append (y ∷ front) x numbers = get_or-append front x numbers

poll_step :
    (all : List Bytes) (x : Bytes) (numbers : List Bytes) (num : Bytes) (i best best_votes : ℕ)
    (better : Bool)
    → better ≡ (not (length x == 0) && ltb best_votes (votes x all))
    → get_or all i [] ≡ x
    → 0 < length num
    → length all < 2 * votes num all
    → Polled all num (x ∷ numbers) best best_votes
    → Polled all num numbers
        (if better then i else best)
        (if better then votes x all else best_votes)
unfolding Polled votes
poll_step all x numbers num i best best_votes better b here some_num most h =
    elim (Bool-cases (x === num)) [
      | inl same ↦ equal ((===_iff x num).0 same) h
      | inr other ↦
          let apart : x ≢ num = λ e. ground (arith, ===_iff x num) in
          let fewer = votes_share x num all apart in differs other (omega (arith, fewer, most)) h
    ]
  where
    equal :
        x ≡ num
        → Polled all num (x ∷ numbers) best best_votes
        → Polled all num numbers
            (if better then i else best)
            (if better then votes x all else best_votes)
    equal e (inl (fewer, to_come)) =
        let size : length x ≡ length num = ap length e in
        let count : votes x all ≡ votes num all = ap (λ y. votes y all) e in
        let takes : better ≡ true = ground arith in rw takes (inr (here ∙ e, count))
    equal e (inr (found, known)) =
        let count : votes x all ≡ votes num all = ap (λ y. votes y all) e in
        let keeps : better ≡ false = ground arith in rw keeps (inr (found, known))

    differs :
        (x === num) ≡ false
        → votes x all < votes num all
        → Polled all num (x ∷ numbers) best best_votes
        → Polled all num numbers
            (if better then i else best)
            (if better then votes x all else best_votes)
    differs other fewer (inl (below, to_come)) =
        inl (ground arith, let k = rw other at to_come in k)
    differs other fewer (inr (found, known)) =
        let keeps : better ≡ false = ground arith in rw keeps (inr (found, known))

poll-Polled :
    (all front numbers : List Bytes) (num : Bytes) (best best_votes : ℕ)
    → all ≡ front ++ numbers
    → 0 < length num
    → length all < 2 * votes num all
    → Polled all num numbers best best_votes
    → get_or all (poll all numbers (length front) best best_votes) [] ≡ num
unfolding poll Polled votes
poll-Polled all front [] num best best_votes e some_num most (inl (fewer, to_come)) =
    absurd (omega arith)
poll-Polled all front [] num best best_votes e some_num most (inr (found, same)) = found
poll-Polled all front (x ∷ numbers) num best best_votes e some_num most h =
    let better = not (length x == 0) && ltb best_votes (votes x all) in
    let here = ap (λ xs. get_or xs (length front) []) e ∙ get_or-append front x numbers in
    let next =
      poll_step all x numbers num (length front) best best_votes better refl here some_num most h in
    let size = length-append front (x ∷ []) in
    let one_more : length (front ++ (x ∷ [])) ≡ suc (length front) = omega (arith, size) in
    let longer : all ≡ (front ++ (x ∷ [])) ++ numbers =
      e ∙ sym (append_assoc front (x ∷ []) numbers) in
    subst
      (λ i.
        get_or all
          (poll all numbers i (if better then length front else best)
            (if better then votes x all else best_votes))
          []
        ≡ num)
      one_more (poll-Polled all (front ++ (x ∷ [])) numbers num _ _ longer some_num most next)

get_or-length : (xs : List Bytes) (i : ℕ) → 0 < length (get_or xs i []) → i < length xs
get_or-length [] i h = absurd (omega arith)
get_or-length (x ∷ xs) zero h = omega arith
get_or-length (x ∷ xs) (suc i) h = let less = get_or-length xs i h in omega (arith, less)

get_or-map :
    (texts : List Bytes) (i : ℕ)
    → i < length texts
    → get_or (map final_number texts) i [] ≡ final_number (get_or texts i [])
get_or-map [] i h = absurd (omega arith)
get_or-map (x ∷ texts) zero h = refl
get_or-map (x ∷ texts) (suc i) h = get_or-map texts i (omega arith)

-- If most of at least two candidates conclude with the same number, the candidate that is elected
-- concludes with it.
pub elect_numeric-majority :
    (d : Scores) (candidates : List Bytes) (num : Bytes)
    → 2 ≤ length candidates
    → 0 < length num
    → length candidates < 2 * votes num (map final_number candidates)
    → final_number (get_or candidates (elect_numeric d candidates) []) ≡ num
unfolding elect_numeric Polled
elect_numeric-majority d candidates num several some_num most =
    let numbers = map final_number candidates in
    let n = length candidates in
    let size = length-map candidates final_number in
    let counted = votes-numeric num numbers some_num in
    let best = poll numbers numbers 0 n 1 in
    let found =
      poll-Polled numbers [] numbers num n 1 refl some_num (omega (arith, size, most))
        (inl (omega (arith, several, most), omega (arith, several, most))) in
    let within : best < n =
      let some_best : 0 < length (get_or numbers best []) =
        let e : length (get_or numbers best []) ≡ length num = ap length found in
        omega (arith, e, some_num) in
      let less = get_or-length numbers best some_best in omega (arith, less, size) in
    let two : ltb n 2 ≡ false = ground arith in
    let half : leb n (numeric numbers * 2) ≡ true = ground arith in
    let in_range : ltb best n ≡ true = ground arith in
    rw (two, half, in_range) (sym (get_or-map candidates best within) ∙ found)
