-- ===== src/Speculative/PromptLookup.antt =====
-- Drafts from the history itself, src/speculative/prompt_lookup.cpp. The configured n-gram lengths and
-- n_draft are not negative: find_draft treats those below 0 as it does 0.
use sovranx.Prelude.{
  ℕ, zero, suc, ◌+◌, ◌-◌, ◌≤◌, ◌<◌, ◌≡◌, refl, min, max, ◌⊎◌, inl, inr, Bool, true, false, ◌&&◌,
  Bool-cases, subst, Option-cases, List, [], Option, none, some, length, take, drop, ltb, leb, ◌==◌,
  ◌===◌, ===_iff, if◌then◌else◌, arith,
}

-- Whether the n tokens from `start` on are the last n ones.
abbrev pub matches : ℕ → ℕ → List ℕ → Bool
matches n start history = take n (drop start history) === drop (length history - n) history

-- for (start = len - un; start-- > 0;): the first match below `start`.
unfoldable pub last_match : ℕ → ℕ → List ℕ → Option ℕ
last_match n zero history = none
last_match n (suc start) history =
    let earlier = last_match n start history in
    if matches n start history then some start else earlier

-- The tokens behind a match.
abbrev pub continuation : ℕ → ℕ → List ℕ → List ℕ
continuation cont n_draft history = take (min (length history - cont) n_draft) (drop cont history)

unfoldable pub or_shorter : ℕ → Option ℕ → ℕ → List ℕ → List ℕ → List ℕ
or_shorter n none n_draft history shorter = shorter
or_shorter n (some start) n_draft history shorter = continuation (start + n) n_draft history

-- for (n = max_n; n >= min_n; --n), where `more` lengths are still to be tried, down from min_n + more - 1.
unfoldable pub try_ngrams : ℕ → ℕ → ℕ → List ℕ → List ℕ
try_ngrams min_n zero n_draft history = []
try_ngrams min_n (suc more) n_draft history =
    let n = min_n + more in
    let shorter = try_ngrams min_n more n_draft history in
    if ltb (length history) (n + 1)
    then shorter
    else or_shorter n (last_match n (length history - n) history) n_draft history shorter

-- find_draft. std::clamp(min_ngram, 1, max_n) is min (max min_ngram 1) max_n.
unfoldable pub find_draft : ℕ → ℕ → List ℕ → ℕ → List ℕ
find_draft max_ngram min_ngram history n_draft =
    let max_n = max max_ngram 1 in
    let min_n = min (max min_ngram 1) max_n in
    if n_draft == 0 then [] else try_ngrams min_n (suc max_n - min_n) n_draft history

-- The n-gram at the end of the history has no earlier occurrence from position `start` on.
abbrev pub NoneFrom : ℕ → ℕ → List ℕ → Type 0
NoneFrom n start history =
    (j : ℕ) → (leb start j && ltb j (length history - n) && matches n j history) ≡ false

-- The tokens behind the most recent earlier occurrence of the last n tokens, as many as there are up to
-- n_draft.
pub record IsRepeat (history : List ℕ) (n_draft n : ℕ) (proposal : List ℕ) : Type 0 where
  pub start : ℕ
  pub before : start + n < length history
  pub seen : take n (drop start history) ≡ drop (length history - n) history
  pub newest : NoneFrom n (suc start) history
  pub copied : proposal ≡ continuation (start + n) n_draft history

last_match-none :
    (n bound : ℕ) (history : List ℕ)
    → last_match n bound history ≡ none
    → (j : ℕ) → (ltb j bound && matches n j history) ≡ false
unfolding last_match
last_match-none n zero history h j = ground arith
last_match-none n (suc start) history h j = elim (Bool-cases (matches n start history)) [
  | inl found ↦ absurd (let e = rw found at h in ground arith)
  | inr other ↦
      let rest = last_match-none n start history (rw other at h) j in
      elim (Bool-cases (j == start)) [
        | inl same ↦
            let e : start ≡ j = ground arith in
            let miss = subst (λ j. matches n j history ≡ false) e other in
            rw miss (and_false (ltb j (suc start)))
        | inr differs ↦
            let same_test : ltb j (suc start) ≡ ltb j start = ground arith in rw same_test rest
      ]
]
  where
    and_false : (b : Bool) → (b && false) ≡ false
    and_false true = refl
    and_false false = refl

last_match-some :
    (n bound s : ℕ) (history : List ℕ)
    → last_match n bound history ≡ some s
    → (s < bound)
      × (matches n s history ≡ true)
      × ((j : ℕ) → (leb (suc s) j && ltb j bound && matches n j history) ≡ false)
unfolding last_match
last_match-some n zero s history h = absurd (ground arith)
last_match-some n (suc start) s history h = elim (Bool-cases (matches n start history)) [
  | inl found ↦
      let e : some start ≡ some s = rw found at h in
      let same : start ≡ s = ground arith in
      let beyond : (j : ℕ) → (leb (suc s) j && ltb j (suc start) && matches n j history) ≡ false =
        λ j. ground arith in
      (omega arith, subst (λ s. matches n s history ≡ true) same found, beyond)
  | inr other ↦
      let (below, found, newest) = last_match-some n start s history (rw other at h) in
      (omega arith, found, λ j. later j other (newest j))
]
  where
    later :
        (j : ℕ)
        → matches n start history ≡ false
        → (leb (suc s) j && ltb j start && matches n j history) ≡ false
        → (leb (suc s) j && ltb j (suc start) && matches n j history) ≡ false
    later j other rest = elim (Bool-cases (j == start)) [
      | inl same ↦
          let e : start ≡ j = ground arith in
          let miss = subst (λ j. matches n j history ≡ false) e other in
          rw miss (and_false (leb (suc s) j && ltb j (suc start)))
      | inr differs ↦
          let same_test : ltb j (suc start) ≡ ltb j start = ground arith in rw same_test rest
    ]
      where
        and_false : (b : Bool) → (b && false) ≡ false
        and_false true = refl
        and_false false = refl

-- No n-gram of a length from `lo` up to below `top` recurs.
abbrev pub NoneIn : ℕ → ℕ → List ℕ → Type 0
NoneIn lo top history = (m : ℕ) → NoneFrom m 0 history ⊎ ((m < lo) ⊎ (top ≤ m))

-- The proposal repeats what followed the longest n-gram that recurs, of a length from min_n up to below
-- `top`.
abbrev pub Longest : ℕ → ℕ → ℕ → List ℕ → List ℕ → Type 0
Longest min_n top n_draft history proposal =
    (n : ℕ) × (min_n ≤ n)
    × (n < top)
    × IsRepeat history n_draft n proposal
    × NoneIn (suc n) top history

NoneIn-suc :
    (lo top : ℕ) (history : List ℕ)
    → NoneFrom top 0 history
    → NoneIn lo top history
    → NoneIn lo (suc top) history
NoneIn-suc lo top history here below m = elim (Bool-cases (m == top)) [
  | inl same ↦ let e : top ≡ m = ground arith in inl (subst (λ m. NoneFrom m 0 history) e here)
  | inr differs ↦ elim (below m) [
    | inl none_here ↦ inl none_here
    | inr (inl small) ↦ inr (inl small)
    | inr (inr big) ↦ inr (inr (ground arith))
  ]
]

NoneFrom-short : (n : ℕ) (history : List ℕ) → length history < n + 1 → NoneFrom n 0 history
NoneFrom-short n history h j =
    let e : length history - n ≡ 0 = omega arith in
    let nothing : ltb j 0 ≡ false = ground arith in
    let any : leb 0 j ≡ true = ground arith in rw (any, e, nothing)

NoneFrom-none :
    (n : ℕ) (history : List ℕ)
    → last_match n (length history - n) history ≡ none
    → NoneFrom n 0 history
NoneFrom-none n history h j =
    let any : leb 0 j ≡ true = ground arith in
    rw any (last_match-none n (length history - n) history h j)

abbrev Outcomes : ℕ → ℕ → ℕ → List ℕ → List ℕ → Type 0
Outcomes min_n top n_draft history proposal =
    Longest min_n top n_draft history proposal ⊎ ((proposal ≡ []) × NoneIn min_n top history)

miss :
    (min_n top n_draft : ℕ) (history proposal : List ℕ)
    → NoneFrom top 0 history
    → Outcomes min_n top n_draft history proposal
    → Outcomes min_n (suc top) n_draft history proposal
miss min_n top n_draft history proposal here (inl (n, above, below, repeat, longer)) =
    inl (n, above, omega arith, repeat, NoneIn-suc (suc n) top history here longer)
miss min_n top n_draft history proposal here (inr (nothing, rest)) =
    inr (nothing, NoneIn-suc min_n top history here rest)

try_ngrams_lem :
    (min_n more n_draft : ℕ) (history : List ℕ)
    → Outcomes min_n (min_n + more) n_draft history (try_ngrams min_n more n_draft history)
unfolding try_ngrams or_shorter
try_ngrams_lem min_n zero n_draft history = inr (
  refl,
  λ m. inr (elim (Bool-cases (ltb m min_n)) [
    | inl small ↦ inl (ground arith)
    | inr big ↦ inr (ground arith)
  ]),
)
try_ngrams_lem min_n (suc more) n_draft history =
    let n = min_n + more in
    let next : suc n ≡ min_n + suc more = omega arith in
    let shorter = try_ngrams_lem min_n more n_draft history in
    let tried = try_ngrams min_n (suc more) n_draft history in
    subst (λ top. Outcomes min_n top n_draft history tried) next
      (elim (Bool-cases (ltb (length history) (n + 1))) [
        | inl short ↦
            let too_short : length history < n + 1 = ground arith in
            rw short (miss min_n n n_draft history _ (NoneFrom-short n history too_short) shorter)
        | inr long ↦ elim (Option-cases (last_match n (length history - n) history)) [
          | inl no_match ↦
              rw (long, no_match, or_shorter)
                (miss min_n n n_draft history _ (NoneFrom-none n history no_match) shorter)
          | inr (start, found) ↦
              let (below, seen, newest) =
                last_match-some n (length history - n) start history found in
              rw (long, found, or_shorter)
                (inl (
                  n,
                  omega arith,
                  omega arith,
                  record {
                    start = start;
                    before = omega arith;
                    seen = (===_iff _ _).0 seen;
                    newest = newest;
                    copied = refl;
                  },
                  λ m. inr (elim (Bool-cases (ltb m (suc n))) [
                    | inl small ↦ inl (ground arith)
                    | inr big ↦ inr (ground arith)
                  ]),
                ))
        ]
      ])

-- find_draft proposes what followed the most recent earlier occurrence of the history's last n tokens, as
-- much as there is up to n_draft tokens, for the largest n between the configured lengths for which there
-- is one; it proposes nothing if there is none. Some tokens are asked for, and the configured lengths are
-- in order and at least 1.
pub find_draft-Longest :
    (max_ngram min_ngram n_draft : ℕ) (history : List ℕ)
    → 0 < n_draft
    → 1 ≤ min_ngram
    → min_ngram ≤ max_ngram
    → Longest min_ngram
        (suc max_ngram)
        n_draft
        history
        (find_draft max_ngram min_ngram history n_draft)
      ⊎ ((find_draft max_ngram min_ngram history n_draft ≡ [])
          × NoneIn min_ngram (suc max_ngram) history)
unfolding find_draft
find_draft-Longest max_ngram min_ngram n_draft history asked low ordered =
    let some_asked : (n_draft == 0) ≡ false = ground arith in
    let max_n : max max_ngram 1 ≡ max_ngram = omega arith in
    let min_n : min (max min_ngram 1) max_ngram ≡ min_ngram = omega arith in
    let top : min_ngram + (suc max_ngram - min_ngram) ≡ suc max_ngram = omega arith in
    let tried = try_ngrams min_ngram (suc max_ngram - min_ngram) n_draft history in
    rw (some_asked, max_n, min_n)
      (subst (λ top. Outcomes min_ngram top n_draft history tried) top
        (try_ngrams_lem min_ngram (suc max_ngram - min_ngram) n_draft history))
