-- ===== src/Conclave.antt =====
-- The election among several answers, src/core/conclave.cpp, and generate_best of src/core/engine.cpp
-- where no scheduler runs, over the texts that its attempts generate. Scores of likeness are floating point and stay abstract.
pub mod Numbers
pub mod Majority
pub mod Best
use sovranx.Decimal.{is_digit}
use sovranx.Dict.{lookup, insert}
use sovranx.Prelude.{
  ℕ, zero, suc, ◌+◌, ◌-◌, ◌*◌, Bool, true, false, not, ◌&&◌, ◌||◌, List, [], ◌∷◌, ◌++◌, map, Option,
  none, some, Bytes, Outcome, ok, throw, length, get_or, replicate, leb, ltb, ◌==◌, ◌===◌,
  if◌then◌else◌,
}

-- `std::isalnum` and `std::tolower` in the C locale.
unfoldable pub is_alnum : ℕ → Bool
is_alnum c = is_digit c || (leb b'A' c && leb c b'Z') || (leb b'a' c && leb c b'z')

unfoldable pub to_lower : ℕ → ℕ
to_lower c = if leb b'A' c && leb c b'Z' then c + 32 else c

unfoldable pub member : Bytes → List Bytes → Bool
member w [] = false
member w (v ∷ ws) = v === w || member w ws

unfoldable pub insert_word : Bytes → List Bytes → List Bytes
insert_word w ws = if length w == 0 || member w ws then ws else w ∷ ws

-- word_set, with the word so far.
unfoldable pub word_set : Bytes → List Bytes → Bytes → List Bytes
word_set cur words [] = insert_word cur words
word_set cur words (ch ∷ text) =
    let alnum = is_alnum ch in
    word_set (if alnum then cur ++ (to_lower ch ∷ []) else [])
      (if alnum then words else insert_word cur words) text

unfoldable pub common_words : List Bytes → List Bytes → ℕ
common_words [] wb = 0
common_words (w ∷ wa) wb = let rest = common_words wa wb in if member w wb then suc rest else rest

-- The doubles of the scores.
pub record Scores : Type 1 where
  pub Score : Type 0
  pub nothing : Score
  pub lowest : Score
  pub ratio : ℕ → ℕ → Score
  pub plus : Score → Score → Score
  pub above : Score → Score → Bool

-- Where final_number stands in the text: between numbers, or in one, with its digits and whether its
-- point was seen.
pub data Place : Type 0 where
  outside : Place
  inside : Bytes → Bool → Place

unfoldable pub digit_next : Bytes → Bool
digit_next [] = false
digit_next (c ∷ text) = is_digit c

unfoldable pub glued : Option ℕ → Bool
glued none = false
glued (some c) = is_alnum c

-- The outer loop at a byte: a number starts with a digit or a sign, or none starts.
unfoldable pub start_number : Option ℕ → ℕ → Bytes → Place
start_number before c text =
    if is_digit c
    then inside (c ∷ []) false
    else if c == b'-' && digit_next text && not (glued before)
    then inside (c ∷ []) false
    else outside

-- A byte in either loop, and the last number that is complete. The inner loop leaves its byte to the
-- outer one.
unfoldable pub scan_byte : Place → Option ℕ → ℕ → Bytes → Bytes → Place × Bytes
scan_byte outside before c text last = (start_number before c text, last)
scan_byte (inside cur dot) before c text last =
    if is_digit c
    then (inside (cur ++ (c ∷ [])) dot, last)
    else if c == b',' && digit_next text
    then (inside cur dot, last)
    else if c == b'.' && not dot && digit_next text
    then (inside (cur ++ (c ∷ [])) true, last)
    else (start_number before c text, cur)

unfoldable pub scan : Place → Option ℕ → Bytes → Bytes → Bytes
scan outside before [] last = last
scan (inside cur dot) before [] last = cur
scan place before (c ∷ text) last =
    let (next, done) = scan_byte place before c text last in scan next (some c) text done

unfoldable pub final_number : Bytes → Bytes
final_number text = scan outside none text []

-- How many of the numbers are this one, and how many there are.
unfoldable pub votes : Bytes → List Bytes → ℕ
votes num [] = 0
votes num (x ∷ numbers) = let rest = votes num numbers in if x === num then suc rest else rest

unfoldable pub numeric : List Bytes → ℕ
numeric [] = 0
numeric (x ∷ numbers) = let rest = numeric numbers in if length x == 0 then rest else suc rest

-- The loop of elect_numeric over the candidates from i on: the best so far, and its votes.
unfoldable pub poll : List Bytes → List Bytes → ℕ → ℕ → ℕ → ℕ
poll all [] i best best_votes = best
poll all (x ∷ numbers) i best best_votes =
    let better = not (length x == 0) && ltb best_votes (votes x all) in
    poll all numbers (suc i) (if better then i else best)
      (if better then votes x all else best_votes)

module _ (d : Scores) where
  unfoldable pub likeness : List Bytes → List Bytes → d.Score
  likeness wa wb =
      let common = common_words wa wb in
      let all = length wa + length wb - common in
      if length wa == 0 || length wb == 0
      then d.nothing
      else if all == 0
      then d.nothing
      else d.ratio common all

  unfoldable pub answer_similarity : Bytes → Bytes → d.Score
  answer_similarity a b = likeness (word_set [] [] a) (word_set [] [] b)

  -- The score of candidate i, over the candidates from j on.
  unfoldable pub score : ℕ → Bytes → ℕ → List Bytes → d.Score → d.Score
  score i a j [] sum = sum
  score i a j (b ∷ candidates) sum =
      score i a (suc j) candidates (if i == j then sum else d.plus sum (answer_similarity a b))

  unfoldable pub elect_loop : List Bytes → ℕ → List Bytes → ℕ → d.Score → ℕ
  elect_loop all i [] best best_score = best
  elect_loop all i (a ∷ candidates) best best_score =
      let here = score i a 0 all d.nothing in
      let better = d.above here best_score in
      elect_loop all (suc i) candidates (if better then i else best)
        (if better then here else best_score)

  unfoldable pub elect : List Bytes → ℕ
  elect candidates =
      if ltb (length candidates) 2 then 0 else elect_loop candidates 0 candidates 0 d.lowest

  unfoldable pub elect_numeric : List Bytes → ℕ
  elect_numeric candidates =
      let numbers = map final_number candidates in
      let n = length candidates in
      let best = poll numbers numbers 0 n 1 in
      if ltb n 2
      then 0
      else if leb n (numeric numbers * 2) && ltb best n
      then best
      else elect candidates

-- The tally of generate_best where no scheduler runs: the answers so far, how many gave each number, and
-- the attempt that stops the others.
pub record Election : Type 0 where
  pub outs : List Bytes
  pub tally : List (Bytes × ℕ)
  pub winner : Option ℕ

unfoldable pub count_of : Option ℕ → ℕ
count_of none = 0
count_of (some n) = n

unfoldable pub winner_or : Option ℕ → ℕ → ℕ
winner_or none best = best
winner_or (some w) best = w

-- The end of run_attempt, for attempt i of n: an absolute majority ends the election.
unfoldable pub deposit : ℕ → ℕ → Bytes → Election → Election
deposit n i out s =
    let num = final_number out in
    let count = suc (count_of (lookup num s.tally)) in
    let kept = record s { outs = s.outs ++ (out ∷ []) } in
    if length num == 0 then kept else record kept {
      tally = insert num count s.tally;
      winner = if ltb n (count * 2) then some i else none;
    }

unfoldable pub votes_for : Bytes → List Bytes → ℕ
votes_for out outs =
    if length (final_number out) == 0 then 1 else votes (final_number out) (map final_number outs)

module _ (d : Scores) {E : Type 0} (answer : ℕ → Outcome E Bytes) where
  -- for (i = 0; i < n && !stop; ++i), where `more` attempts are left and attempt i is next.
  unfoldable pub attempts : ℕ → ℕ → ℕ → Election → Outcome E Election
  attempts n zero i s = ok s
  attempts n (suc more) i s = elim s.winner [
    | some w ↦ ok s
    | none ↦ elim (answer i) [
      | throw e ↦ throw e
      | ok out ↦ attempts n more (suc i) (deposit n i out s)
    ]
  ]

  -- The election's end: outs has an empty text for each attempt that did not run.
  unfoldable pub elected : ℕ → Election → Bytes × ℕ
  elected n s =
      let outs = s.outs ++ replicate (n - length s.outs) [] in
      let best = winner_or s.winner (elect_numeric d outs) in
      (get_or outs best [], votes_for (get_or outs best []) outs)

  -- generate_best: the answer and its votes. Attempt 0 is the plain generation.
  unfoldable pub generate_best : ℕ → Outcome E (Bytes × ℕ)
  generate_best n =
      if leb n 1
      then (elim (answer 0) [ throw e ↦ throw e | ok out ↦ ok (out, 1) ])
      else (elim (attempts n n 0 (record { outs = []; tally = []; winner = none })) [
        | throw e ↦ throw e
        | ok s ↦ ok (elected n s)
      ])
