-- ===== src/Conclave/Best.antt =====
-- The early end of the election in generate_best, src/core/engine.cpp.
use sovranx.Conclave.{
  final_number, votes, Scores, elect_numeric, Election, count_of, deposit, attempts, winner_or,
  elected, generate_best,
}
use sovranx.Conclave.Majority.{votes_share, elect_numeric-majority}
use sovranx.Dict.{lookup, lookup-insert}
use sovranx.Prelude.{
  ℕ, zero, suc, ◌+◌, ◌-◌, ◌*◌, ◌≤◌, ◌<◌, ◌≡◌, ◌≢◌, refl, sym, ap, ◌∙◌, subst, ◌⊎◌, inl, inr, true,
  false, Bool-cases, List, [], ◌∷◌, ◌++◌, append_assoc, map, length-map, Option, none, some, Bytes,
  Outcome, ok, throw, ok-injective, length, length-append, get_or, get_or-last, replicate, leb, ltb,
  ◌==◌, ◌===◌, ===_iff, ===_refl, if◌then◌else◌, arith,
}

-- The texts of `more` attempts from attempt i on.
unfoldable pub texts_from : (ℕ → Bytes) → ℕ → ℕ → List Bytes
texts_from text zero i = []
texts_from text (suc more) i = text i ∷ texts_from text more (suc i)

abbrev pub numbers_of : List Bytes → List Bytes
numbers_of outs = map final_number outs

numbers_of-append : (xs ys : List Bytes) → numbers_of (xs ++ ys) ≡ numbers_of xs ++ numbers_of ys
numbers_of-append [] ys = refl
numbers_of-append (x ∷ xs) ys = ap (◌∷◌ (final_number x)) (numbers_of-append xs ys)

votes-append :
    (num : Bytes) (xs ys : List Bytes) → votes num (xs ++ ys) ≡ votes num xs + votes num ys
unfolding votes
votes-append num [] ys = omega arith
votes-append num (x ∷ xs) ys = ground (arith, votes-append num xs ys)

length-texts_from : (text : ℕ → Bytes) (more i : ℕ) → length (texts_from text more i) ≡ more
unfolding texts_from
length-texts_from text zero i = refl
length-texts_from text (suc more) i = ap suc (length-texts_from text more (suc i))

-- While no number has a majority: the tally counts the numbers of the answers.
pub record IsTallied (s : Election) : Type 0 where
  pub undecided : s.winner ≡ none
  pub counts :
      (num : Bytes) → 0 < length num → count_of (lookup num s.tally) ≡ votes num (numbers_of s.outs)

-- Attempt w ended the election: its number has most of n votes already.
pub record IsDecided (n : ℕ) (s : Election) : Type 0 where
  pub first : ℕ
  pub decided : s.winner ≡ some first
  pub some_number : 0 < length (final_number (get_or s.outs first []))
  pub within : first < length s.outs
  pub most : n < 2 * votes (final_number (get_or s.outs first [])) (numbers_of s.outs)

-- One more answer is one more vote for its number.
votes_more :
    (num out : Bytes) (outs : List Bytes)
    → votes num (numbers_of (outs ++ (out ∷ [])))
      ≡ votes num (numbers_of outs) + (if final_number out === num then 1 else 0)
unfolding votes
votes_more num out outs =
    ap (votes num) (numbers_of-append outs (out ∷ []))
    ∙ votes-append num (numbers_of outs) (final_number out ∷ [])

deposit_lem :
    (n : ℕ) (out : Bytes) (s : Election)
    → IsTallied s
    → IsTallied (deposit n (length s.outs) out s) ⊎ IsDecided n (deposit n (length s.outs) out s)
unfolding deposit count_of votes
deposit_lem n out s h =
    let num = final_number out in
    let count = suc (count_of (lookup num s.tally)) in
    elim (Bool-cases (length num == 0)) [
      | inl empty ↦ rw empty (
          inl (record {
            undecided = h.undecided;
            counts = λ other some_other.
                let more = votes_more other out s.outs in
                let apart : (num === other) ≡ false = ground (arith, ===_iff num other) in
                let e = rw apart at more in
                let before = h.counts other some_other in omega (arith, e, before);
          }))
      | inr number ↦ elim (Bool-cases (ltb n (count * 2))) [
        | inl most ↦
            let own = votes_more num out s.outs in
            let same : (num === num) ≡ true = ===_refl num in
            let mine = rw same at own in
            let some_num : 0 < length num = ground arith in
            let before = h.counts num some_num in
            let last : get_or (s.outs ++ (out ∷ [])) (length s.outs) [] ≡ out =
              get_or-last s.outs out [] in
            let over : n < count * 2 = ground arith in
            rw (number, most)
              (inr (record {
                first = length s.outs;
                decided = refl;
                some_number = subst (λ x. 0 < length (final_number x)) (sym last) some_num;
                within = let size = length-append s.outs (out ∷ []) in omega (arith, size);
                most =
                    subst (λ x. n < 2 * votes (final_number x) (numbers_of (s.outs ++ (out ∷ []))))
                      (sym last) (omega (arith, mine, before, over));
              }))
        | inr few ↦
            rw (number, few)
              (inl (record {
                undecided = refl;
                counts = λ other some_other.
                    let more = votes_more other out s.outs in
                    let some_num : 0 < length num = ground arith in
                    let own = h.counts num some_num in
                    let before = h.counts other some_other in
                    let found = lookup-insert num other count s.tally in
                    elim (Bool-cases (num === other)) [
                      | inl same ↦
                          let e : num ≡ other = (===_iff num other).0 same in
                          let mine : votes num (numbers_of s.outs)
                              ≡ votes other (numbers_of s.outs) =
                            ap (λ x. votes x (numbers_of s.outs)) e in
                          let k = rw same at found in
                          let l = rw same at more in ap count_of k ∙ omega (arith, own, mine, l)
                      | inr apart ↦
                          let k = rw apart at found in
                          let l = rw apart at more in ap count_of k ∙ omega (arith, before, l)
                    ];
              }))
      ]
    ]

deposit-outs :
    (n i : ℕ) (out : Bytes) (s : Election) → (deposit n i out s).outs ≡ s.outs ++ (out ∷ [])
unfolding deposit
deposit-outs n i out s = elim (Bool-cases (length (final_number out) == 0)) [
  | inl empty ↦ rw empty refl
  | inr number ↦ rw number refl
]

empty : (xs : List Bytes) → length xs ≡ 0 → xs ≡ []
empty [] h = refl
empty (x ∷ xs) h = absurd (omega (arith, h))

get_or-append_of_lt :
    (xs ys : List Bytes) (i : ℕ) → i < length xs → get_or (xs ++ ys) i [] ≡ get_or xs i []
get_or-append_of_lt [] ys i h = absurd (omega arith)
get_or-append_of_lt (x ∷ xs) ys zero h = refl
get_or-append_of_lt (x ∷ xs) ys (suc i) h = get_or-append_of_lt xs ys i (omega arith)

module _ {E : Type 0} (d : Scores) (answer : ℕ → Outcome E Bytes) where
  attempts-decided :
      (n more i w : ℕ) (s : Election) → s.winner ≡ some w → attempts d answer n more i s ≡ ok s
  unfolding attempts
  attempts-decided n zero i w s h = refl
  attempts-decided n (suc more) i w s h = rw h refl

  attempts-next :
      (n more i : ℕ) (out : Bytes) (s : Election)
      → s.winner ≡ none
      → answer i ≡ ok out
      → attempts d answer n (suc more) i s ≡ attempts d answer n more (suc i) (deposit n i out s)
  unfolding attempts
  attempts-next n more i out s h e = choose s.winner (answer i) h e
    where
      choose :
          (winner : Option ℕ) (answered : Outcome E Bytes)
          → winner ≡ none
          → answered ≡ ok out
          → (let r : Outcome E Election = elim winner [
            | some w ↦ ok s
            | none ↦ elim answered [
              | throw e ↦ throw e
              | ok out ↦ attempts d answer n more (suc i) (deposit n i out s)
            ]
          ] in
              r)
            ≡ attempts d answer n more (suc i) (deposit n i out s)
      choose (some w) answered h e = absurd (ground arith)
      choose none (throw err) h e = absurd (ground arith)
      choose none (ok other) h e =
          ap (λ out. attempts d answer n more (suc i) (deposit n i out s))
            (ok-injective other out e)

  module _ (text : ℕ → Bytes) (n : ℕ) (answered : (i : ℕ) → i < n → answer i ≡ ok (text i)) where
    -- The attempts end with all answers and no majority, or with a majority among the first ones.
    attempts_lem :
        (more : ℕ) (s : Election)
        → length s.outs + more ≡ n
        → IsTallied s
        → (s' : Election) × (attempts d answer n more (length s.outs) s ≡ ok s')
          × (rest : List Bytes) × (s.outs ++ texts_from text more (length s.outs) ≡ s'.outs ++ rest)
          × ((IsTallied s' × (length s'.outs ≡ n)) ⊎ IsDecided n s')
    unfolding attempts texts_from
    attempts_lem zero s e h = (s, refl, [], refl, inl (h, omega (arith, e)))
    attempts_lem (suc more) s e h =
        let i = length s.outs in
        let out = text i in
        let next = deposit n i out s in
        let here = answered i (omega (arith, e)) in
        let outs = deposit-outs n i out s in
        let size = length-append s.outs (out ∷ []) in
        let grown : length next.outs ≡ suc i = ap length outs ∙ omega (arith, size) in
        let split : s.outs ++ (out ∷ texts_from text more (suc i))
            ≡ next.outs ++ texts_from text more (suc i) =
          sym (append_assoc s.outs (out ∷ []) (texts_from text more (suc i)))
          ∙ ap (λ xs. xs ++ texts_from text more (suc i)) (sym outs) in
        let next_call = attempts-next n more i out s h.undecided here in
        elim (deposit_lem n out s h) [
          | inr decided ↦ (
            next,
            next_call ∙ attempts-decided n more (suc i) decided.first next decided.decided,
            texts_from text more (suc i),
            split,
            inr decided,
          )
          | inl tallied ↦
              let (s', ran, rest, parts, ending) =
                attempts_lem more next (omega (arith, e, grown)) tallied in
              (
                s',
                next_call ∙ ap (λ k. attempts d answer n more k next) (sym grown) ∙ ran,
                rest,
                split ∙ ap (λ k. next.outs ++ texts_from text more k) (sym grown) ∙ parts,
                ending,
              )
        ]

    -- Whether or not the election ended early, the text elected concludes with the majority's number.
    elected_lem :
        (num : Bytes) (s : Election) (rest : List Bytes)
        → 2 ≤ n
        → 0 < length num
        → n < 2 * votes num (numbers_of (texts_from text n 0))
        → texts_from text n 0 ≡ s.outs ++ rest
        → (IsTallied s × (length s.outs ≡ n)) ⊎ IsDecided n s
        → final_number (elected d answer n s).0 ≡ num
    unfolding elected winner_or
    elected_lem num s rest several some_num most parts (inl (h, full)) =
        let all = texts_from text n 0 in
        let size = length-texts_from text n 0 in
        let none_left : n - length s.outs ≡ 0 = omega (arith, full) in
        let nothing : rest ≡ [] =
          let both : length all ≡ length (s.outs ++ rest) = ap length parts in
          let sum = length-append s.outs rest in
          empty rest (omega (arith, size, full, both, sum)) in
        let outs : s.outs ++ replicate (n - length s.outs) [] ≡ all =
          ap (λ k. s.outs ++ replicate k []) none_left
          ∙ ap (λ xs. s.outs ++ xs) (sym nothing)
          ∙ sym parts in
        subst
          (λ w.
            final_number (
              get_or (s.outs ++ replicate (n - length s.outs) [])
                (winner_or w (elect_numeric d (s.outs ++ replicate (n - length s.outs) []))) [])
            ≡ num)
          (sym h.undecided)
          (subst (λ xs. final_number (get_or xs (elect_numeric d xs) []) ≡ num) (sym outs)
            (elect_numeric-majority d all num (omega (arith, size, several)) some_num
              (omega (arith, size, most))))
    elected_lem num s rest several some_num most parts (inr h) =
        let x = final_number (get_or s.outs h.first []) in
        let all = texts_from text n 0 in
        let here = get_or-append_of_lt s.outs (replicate (n - length s.outs) []) h.first h.within in
        let seen : votes x (numbers_of s.outs) ≤ votes x (numbers_of all) =
          let sum : votes x (numbers_of all)
              ≡ votes x (numbers_of s.outs) + votes x (numbers_of rest) =
            ap (λ xs. votes x (numbers_of xs)) parts
            ∙ ap (votes x) (numbers_of-append s.outs rest)
            ∙ votes-append x (numbers_of s.outs) (numbers_of rest) in
          omega (arith, sum) in
        let same : x ≡ num = elim (Bool-cases (x === num)) [
          | inl yes_same ↦ (===_iff x num).0 yes_same
          | inr other ↦
              let apart : x ≢ num = λ e. ground (arith, ===_iff x num) in
              let shared = votes_share x num (numbers_of all) apart in
              let size = length-map all final_number in
              let count = length-texts_from text n 0 in
              let over = h.most in absurd (omega (arith, shared, size, count, over, seen, most))
        ] in
        subst
          (λ w.
            final_number (
              get_or (s.outs ++ replicate (n - length s.outs) [])
                (winner_or w (elect_numeric d (s.outs ++ replicate (n - length s.outs) []))) [])
            ≡ num)
          (sym h.decided) (ap final_number here ∙ same)

  -- If most of the texts that n attempts generate conclude with the same number, generate_best returns a
  -- text that concludes with it, also where it ends the election early. There are at least two attempts,
  -- and none throws.
  pub generate_best-majority :
      (text : ℕ → Bytes) (n : ℕ) (num : Bytes)
      → ((i : ℕ) → i < n → answer i ≡ ok (text i))
      → 2 ≤ n
      → 0 < length num
      → n < 2 * votes num (map final_number (texts_from text n 0))
      → (out : Bytes) × (count : ℕ) × (generate_best d answer n ≡ ok (out, count))
        × (final_number out ≡ num)
  unfolding generate_best votes count_of lookup
  generate_best-majority text n num answered several some_num most =
      let start : Election = record { outs = []; tally = []; winner = none } in
      let tallied : IsTallied start = record {
        undecided = refl;
        counts = λ other some_other. refl;
      } in
      let (s, ran, rest, parts, ending) =
        attempts_lem text n answered n start (omega arith) tallied in
      let more : leb n 1 ≡ false = ground arith in
      (
        (elected d answer n s).0,
        (elected d answer n s).1,
        rw (more, ran) refl,
        elected_lem text n answered num s rest several some_num most parts ending,
      )
