-- ===== src/Speculative/Decoder/Greedy/Batch.antt =====
-- A round of batched verification under greedy sampling: which tokens it yields, and which the cache
-- holds behind it.
use sovranx.Prelude.{
  ℕ, zero, suc, ◌+◌, ◌-◌, ◌≤◌, ◌<◌, ◌≡◌, refl, sym, ap, ◌∙◌, subst, inl, inr, Bool-cases, List, [],
  ◌∷◌, ◌++◌, append-nil, append_assoc, Option, none, some, ok, length, take, drop, take-append-drop,
  length-take, arith,
}
use sovranx.Speculative.Decoder.{Calls}
use sovranx.Speculative.Decoder.Greedy.{IsGreedyModel, next, Preferred}
use sovranx.Speculative.Verify.{Models, Draft, tokens_of, verify_loop}

-- The tokens that a verification delivers.
abbrev pub yield_of : List ℕ → Option ℕ → List ℕ
yield_of accepted corrected = elim corrected [ none ↦ accepted | some t ↦ accepted ++ (t ∷ []) ]

yield_of-cons : (t : ℕ) (ts : List ℕ) (c : Option ℕ) → yield_of (t ∷ ts) c ≡ t ∷ yield_of ts c
yield_of-cons t ts none = refl
yield_of-cons t ts (some u) = refl

pub take-take : {A : Type 0} (m n : ℕ) (xs : List A) → m ≤ n → take m (take n xs) ≡ take m xs
take-take zero n xs h = refl
take-take (suc m) zero xs h = absurd (omega arith)
take-take (suc m) (suc n) [] h = refl
take-take (suc m) (suc n) (x ∷ xs) h = ap (◌∷◌ x) (take-take m n xs (omega arith))

pub regroup :
    (held front : List ℕ) (cur last : ℕ)
    → (held ++ (cur ∷ [])) ++ (front ++ (last ∷ [])) ≡ (held ++ (cur ∷ front)) ++ (last ∷ [])
regroup held front cur last =
    append_assoc held (cur ∷ []) (front ++ (last ∷ []))
    ∙ sym (append_assoc held (cur ∷ front) (last ∷ []))

-- A batch is what is front of it and the rest.
pub rolled_back :
    (held front ds : List ℕ) (cur : ℕ)
    → front ≡ take (length front) ds
    → length front < length ds
    → held ++ (cur ∷ take (length ds - 1) ds)
      ≡ (held ++ (cur ∷ front)) ++ drop (length front) (take (length ds - 1) ds)
rolled_back held front ds cur e short =
    let batch = take (length ds - 1) ds in
    let n = length front in
    ap (λ xs. held ++ (cur ∷ xs))
      (sym (take-append-drop n batch)
        ∙ ap (λ xs. xs ++ drop n batch)
            (take-take n (length ds - 1) ds (omega (arith, short)) ∙ sym e))
    ∙ sym (append_assoc held (cur ∷ front) (drop n batch))

-- A list that is not empty is all but its last element, and that.
pub split_last :
    (ts : List ℕ) → 0 < length ts → (t : ℕ) × (ts ≡ take (length ts - 1) ts ++ (t ∷ []))
split_last [] h = absurd (omega arith)
split_last (t ∷ []) h = (t, refl)
split_last (t ∷ u ∷ ts) h =
    let (last, e) = split_last (u ∷ ts) (omega arith) in
    let size : suc (suc (length ts) - 1) ≡ suc (suc (length ts)) - 1 = omega arith in
    (last, ap (◌∷◌ t) e ∙ ap (λ n. take n (t ∷ u ∷ ts) ++ (last ∷ [])) size)

module _ (m : Models) (s : Calls m) (Holds : m.State → List ℕ → Type 0) (scores : List ℕ → m.Logits)
    (best : m.Probs → ℕ) (laws : IsGreedyModel m s Holds scores best) where
  pub verify_loop-Preferred :
      (logits : ℕ → m.Logits) (i : ℕ) (draft : Draft m) (history : List ℕ) (g : m.Rng)
      → ((j : ℕ)
          → j < length draft
          → logits (i + j) ≡ scores (history ++ take j (tokens_of m draft)))
      → let (tokens, corrected, h) = verify_loop m logits i draft history g in
        Preferred m s scores best history (yield_of tokens corrected)
  unfolding verify_loop tokens_of
  verify_loop-Preferred logits i [] history g scored = tt
  verify_loop-Preferred logits i ((d, probs) ∷ draft) history g scored =
      let here : logits i ≡ scores history =
        ap logits (omega arith) ∙ scored 0 (omega arith) ∙ ap scores (append-nil history) in
      let target = m.distribution (logits i) history in
      let r = m.accepts target probs d g in
      let pick : best target ≡ next m s scores best history =
        ap (λ l. best (m.distribution l history)) here in
      let rest = verify_loop-Preferred logits (suc i) draft (history ++ (d ∷ [])) r.1 (λ j less.
        ap logits (omega arith)
        ∙ scored (suc j) (omega (arith, less))
        ∙ ap scores (sym (append_assoc history (d ∷ []) (take j (tokens_of m draft))))) in
      elim (Bool-cases r.0) [
        | inl taken ↦
            let accepted = sym (laws.accepts_best (logits i) history probs d g) ∙ taken in
            let e : d ≡ best target = ground arith in
            rw taken (
              subst (Preferred m s scores best history) (sym (yield_of-cons d _ _))
                (e ∙ pick, rest))
        | inr refused ↦
            rw refused (laws.correct_best (logits i) history probs d g r.1 refused ∙ pick, tt)
      ]

  -- What the target's cache holds behind the pass, from one that holds all but the newest token: all that
  -- the history and the draft say but the last token, and what is kept of it.
  pub batch_scores :
      (held : List ℕ) (cur : ℕ) (ds : List ℕ) (st st' : m.State) (logits : ℕ → m.Logits)
      → 0 < length ds
      → Holds st held
      → m.decode_batch (cur ∷ take (length ds - 1) ds) st ≡ ok (logits, st')
      → Holds st' (held ++ (cur ∷ take (length ds - 1) ds))
        × ((j : ℕ) → j < length ds → logits j ≡ scores ((held ++ (cur ∷ [])) ++ take j ds))
  batch_scores held cur ds st st' logits some_draft holds decoded =
      let (after, scored) = laws.batch_holds st st' logits held _ holds decoded in
      let size = length-take (length ds - 1) ds in
      (
        after,
        λ j less.
            scored j (omega (arith, size, less))
            ∙ ap (λ ts. scores (held ++ (cur ∷ ts)))
                (take-take j (length ds - 1) ds (omega (arith, less)))
            ∙ ap scores (sym (append_assoc held (cur ∷ []) (take j ds))),
      )
