-- ===== src/Speculative/Verify.antt =====
-- Drafting and batched verification, src/speculative/draft_generator.cpp and
-- src/speculative/batch_verifier.cpp, and the draft length of src/speculative/speculative_decoder.cpp.
-- Distributions are floating point and stay abstract, with the draws from them.
use sovranx.Prelude.{
  ℕ, zero, suc, ◌+◌, ◌-◌, ◌*◌, ◌≤◌, ◌<◌, ◌≡◌, refl, ap, min, max, inl, inr, Bool, false, Bool-cases,
  List, [], ◌∷◌, ◌++◌, Option, none, some, Outcome, ok, throw, Outcome-cases, ok-injective, subst,
  length, take, leb, ltb, ◌==◌, if◌then◌else◌, arith,
}

-- The samplers and the two models. `accepts` is accept_token at a uniform draw, on the target's and the
-- draft's distribution; `correct` draws from the residual distribution. The distributions of a batch
-- are read by their position.
pub record Models : Type 1 where
  pub State : Type 0
  pub Error : Type 0
  pub Logits : Type 0
  pub Probs : Type 0
  pub Rng : Type 0
  pub eos_token : ℕ
  pub decode_append : List ℕ → State → Outcome Error (Logits × State)
  pub decode_batch : List ℕ → State → Outcome Error ((ℕ → Logits) × State)
  pub distribution : Logits → List ℕ → Probs
  pub draw : Probs → Rng → ℕ × Rng
  pub accepts : Probs → Probs → ℕ → Rng → Bool × Rng
  pub correct : Probs → Probs → Rng → ℕ × Rng

-- The corrected_token is there if has_correction is set.
pub record VerificationResult : Type 0 where
  pub accepted_tokens : List ℕ
  pub rejected_count : ℕ
  pub corrected_token : Option ℕ

pub data VerifyError (E : Type 0) : Type 0 where
  empty_draft : VerifyError E
  decode_failed : E → VerifyError E

module _ (m : Models) where
  -- A DraftResult: the tokens, each with its distribution.
  abbrev pub Draft : Type 0
  Draft = List (ℕ × m.Probs)

  -- generate_draft's loop. An error comes with the sampler's generator, which keeps its draws.
  unfoldable pub draft_loop :
      ℕ → ℕ → List ℕ → m.Rng → m.State → Outcome (m.Error × m.Rng) (Draft × m.Rng × m.State)
  draft_loop zero cur history g st = ok ([], g, st)
  draft_loop (suc n) cur history g st = elim (m.decode_append (cur ∷ []) st) [
    | throw e ↦ throw (e, g)
    | ok r ↦
        let probs = m.distribution r.0 history in
        let drawn = m.draw probs g in
        let rest = draft_loop n drawn.0 (history ++ (drawn.0 ∷ [])) drawn.1 r.1 in
        if drawn.0 == m.eos_token
        then ok ((drawn.0, probs) ∷ [], drawn.1, r.1)
        else elim rest [ throw e ↦ throw e | ok t ↦ ok ((drawn.0, probs) ∷ t.0, t.1, t.2) ]
  ]

  -- generate_draft: n_tokens if it is positive, else the configured number.
  unfoldable pub generate_draft :
      ℕ → ℕ → List ℕ → ℕ → m.Rng → m.State → Outcome (m.Error × m.Rng) (Draft × m.Rng × m.State)
  generate_draft configured last_token recent n_tokens g st =
      draft_loop (if ltb 0 n_tokens then n_tokens else configured) last_token recent g st

  -- The loop over the draft, for the tokens from position i on: those accepted, and the correction.
  unfoldable pub verify_loop :
      (ℕ → m.Logits) → ℕ → Draft → List ℕ → m.Rng → List ℕ × Option ℕ × m.Rng
  verify_loop logits i [] history g = ([], none, g)
  verify_loop logits i ((d, probs) ∷ draft) history g =
      let target = m.distribution (logits i) history in
      let (accepted, g') = m.accepts target probs d g in
      let (tokens, corrected, g'') = verify_loop logits (suc i) draft (history ++ (d ∷ [])) g' in
      let (fixed, h) = m.correct target probs g' in
      if accepted then (d ∷ tokens, corrected, g'') else ([], some fixed, h)

  -- The draft's tokens, and all but the last of them.
  unfoldable pub tokens_of : Draft → List ℕ
  tokens_of [] = []
  tokens_of ((d, probs) ∷ draft) = d ∷ tokens_of draft

  unfoldable pub after_batch :
      Draft
      → List ℕ
      → m.Rng
      → Outcome m.Error ((ℕ → m.Logits) × m.State)
      → Outcome (VerifyError m.Error) (VerificationResult × m.Rng × m.State)
  after_batch draft recent g (throw e) = throw (decode_failed e)
  after_batch draft recent g (ok (logits, st)) =
      let (tokens, corrected, h) = verify_loop logits 0 draft recent g in
      ok (
        record {
          accepted_tokens = tokens;
          rejected_count = length draft - length tokens;
          corrected_token = corrected;
        },
        h,
        st,
      )

  -- verify_batch, on the batch of the last token and the draft but its last token.
  unfoldable pub verify_batch :
      ℕ
      → Draft
      → List ℕ
      → m.Rng
      → m.State
      → Outcome (VerifyError m.Error) (VerificationResult × m.Rng × m.State)
  verify_batch last_token draft recent g st =
      let batch = last_token ∷ take (length draft - 1) (tokens_of draft) in
      if length draft == 0
      then throw empty_draft
      else after_batch draft recent g (m.decode_batch batch st)

-- adapt_draft_length: `accepted / drafted` against 0.9 and 0.4, in whole numbers.
unfoldable pub adapt_draft_length : ℕ → ℕ → ℕ → ℕ → ℕ → ℕ
adapt_draft_length low high current accepted drafted =
    if drafted == 0
    then current
    else if leb (9 * drafted) (10 * accepted)
    then min (current + 2) high
    else if leb (10 * accepted) (4 * drafted)
    then max (current - 2) low
    else current

-- Adapting keeps the draft length within its bounds.
pub adapt_draft_length-bounds :
    (low high current accepted drafted : ℕ)
    → low ≤ current
    → current ≤ high
    → (low ≤ adapt_draft_length low high current accepted drafted)
      × (adapt_draft_length low high current accepted drafted ≤ high)
unfolding adapt_draft_length
adapt_draft_length-bounds low high current accepted drafted a b = (ground arith, ground arith)

module _ (m : Models) where
  -- What a verification leaves of a draft: a front of it, and a correction unless that is all of it.
  abbrev pub IsVerdict : List ℕ → List ℕ → Option ℕ → Type 0
  IsVerdict draft tokens none = tokens ≡ draft
  IsVerdict draft tokens (some fixed) =
      (tokens ≡ take (length tokens) draft) × (length tokens < length draft)

  verify_loop-IsVerdict :
      (logits : ℕ → m.Logits) (i : ℕ) (draft : Draft m) (history : List ℕ) (g : m.Rng)
      → let (tokens, corrected, h) = verify_loop m logits i draft history g in
        IsVerdict (tokens_of m draft) tokens corrected
  unfolding verify_loop tokens_of
  verify_loop-IsVerdict logits i [] history g = refl
  verify_loop-IsVerdict logits i ((d, probs) ∷ draft) history g =
      let target = m.distribution (logits i) history in
      let r = m.accepts target probs d g in
      let rest = verify_loop-IsVerdict logits (suc i) draft (history ++ (d ∷ [])) r.1 in
      elim (Bool-cases r.0) [
        | inl yes_now ↦ rw yes_now (
            cons_verdict d _ _ (verify_loop m logits (suc i) draft (history ++ (d ∷ [])) r.1).1
              rest)
        | inr refused ↦ rw refused (refl, omega arith)
      ]
    where
      cons_verdict :
          (d : ℕ) (draft tokens : List ℕ) (corrected : Option ℕ)
          → IsVerdict draft tokens corrected
          → IsVerdict (d ∷ draft) (d ∷ tokens) corrected
      cons_verdict d draft tokens none e = ap (◌∷◌ d) e
      cons_verdict d draft tokens (some fixed) (e, less) = (ap (◌∷◌ d) e, omega arith)

  pub length-tokens_of : (draft : Draft m) → length (tokens_of m draft) ≡ length draft
  unfolding tokens_of
  length-tokens_of [] = refl
  length-tokens_of ((d, probs) ∷ draft) = ap suc (length-tokens_of draft)

  verdict_length :
      (draft tokens : List ℕ) (corrected : Option ℕ)
      → IsVerdict draft tokens corrected
      → length tokens ≤ length draft
  verdict_length draft tokens none e =
      let size : length tokens ≡ length draft = ap length e in omega arith
  verdict_length draft tokens (some fixed) (e, less) = omega arith

  -- A verification that succeeds comes from a pass that did.
  pub verify_batch-ok :
      (last_token : ℕ) (draft : Draft m) (recent : List ℕ) (g : m.Rng) (st : m.State)
      (v : VerificationResult × m.Rng × m.State)
      → 0 < length draft
      → verify_batch m last_token draft recent g st ≡ ok v
      → (logits : ℕ → m.Logits) × (m.decode_batch
            (last_token ∷ take (length draft - 1) (tokens_of m draft))
            st
          ≡ ok (logits, v.2))
        × (v.0.accepted_tokens ≡ (verify_loop m logits 0 draft recent g).0)
        × (v.0.corrected_token ≡ (verify_loop m logits 0 draft recent g).1)
        × IsVerdict (tokens_of m draft) v.0.accepted_tokens v.0.corrected_token
        × (length v.0.accepted_tokens + v.0.rejected_count ≡ length draft)
  unfolding verify_batch after_batch
  verify_batch-ok last_token draft recent g st v some_draft e =
      let not_empty : (length draft == 0) ≡ false = ground arith in
      let batch = last_token ∷ take (length draft - 1) (tokens_of m draft) in
      elim (Outcome-cases (m.decode_batch batch st)) [
        | inr (err, failed) ↦
            absurd (let k = rw (not_empty, failed, after_batch) at e in ground arith)
        | inl ((logits, st'), decoded) ↦
            let k = rw (not_empty, decoded, after_batch) at e in
            let (tokens, corrected, h) = verify_loop m logits 0 draft recent g in
            let verdict = verify_loop-IsVerdict logits 0 draft recent g in
            let short = verdict_length (tokens_of m draft) tokens corrected verdict in
            let size = length-tokens_of draft in
            subst
              (λ (v : VerificationResult × m.Rng × m.State).
                (logits : ℕ → m.Logits) × (m.decode_batch batch st ≡ ok (logits, v.2))
                × (v.0.accepted_tokens ≡ (verify_loop m logits 0 draft recent g).0)
                × (v.0.corrected_token ≡ (verify_loop m logits 0 draft recent g).1)
                × IsVerdict (tokens_of m draft) v.0.accepted_tokens v.0.corrected_token
                × (length v.0.accepted_tokens + v.0.rejected_count ≡ length draft))
              (ok-injective _ _ k)
              (logits, decoded, refl, refl, verdict, omega (arith, short, size))
      ]

  pub verify_batch-throw :
      (last_token : ℕ) (draft : Draft m) (recent : List ℕ) (g : m.Rng) (st : m.State)
      (err : VerifyError m.Error)
      → 0 < length draft
      → verify_batch m last_token draft recent g st ≡ throw err
      → (e : m.Error) × (m.decode_batch
            (last_token ∷ take (length draft - 1) (tokens_of m draft))
            st
          ≡ throw e)
        × (err ≡ decode_failed e)
  unfolding verify_batch after_batch
  verify_batch-throw last_token draft recent g st err some_draft e =
      let not_empty : (length draft == 0) ≡ false = ground arith in
      let batch = last_token ∷ take (length draft - 1) (tokens_of m draft) in
      elim (Outcome-cases (m.decode_batch batch st)) [
        | inr (cause, failed) ↦
            (cause, failed, (let k = rw (not_empty, failed, after_batch) at e in ground arith))
        | inl ((logits, st'), decoded) ↦
            absurd (let k = rw (not_empty, decoded, after_batch) at e in ground arith)
      ]

  -- When the batched pass of a draft that is not empty succeeds, the verification succeeds: the accepted
  -- tokens are the whole draft and nothing is corrected, or they are a proper front of it and one token
  -- is corrected; accepted and rejected tokens add up to the draft.
  pub verify_batch-IsVerdict :
      (last_token : ℕ) (draft : Draft m) (recent : List ℕ) (g : m.Rng) (st st' : m.State)
      (logits : ℕ → m.Logits)
      → 0 < length draft
      → m.decode_batch (last_token ∷ take (length draft - 1) (tokens_of m draft)) st
        ≡ ok (logits, st')
      → (result : VerificationResult) × (h : m.Rng) × (verify_batch m last_token draft recent g st
          ≡ ok (result, h, st'))
        × IsVerdict (tokens_of m draft) result.accepted_tokens result.corrected_token
        × (length result.accepted_tokens + result.rejected_count ≡ length draft)
  unfolding verify_batch after_batch
  verify_batch-IsVerdict last_token draft recent g st st' logits some_draft decoded =
      let not_empty : (length draft == 0) ≡ false = ground arith in
      let (tokens, corrected, h) = verify_loop m logits 0 draft recent g in
      let verdict = verify_loop-IsVerdict logits 0 draft recent g in
      let short = verdict_length (tokens_of m draft) tokens corrected verdict in
      let size = length-tokens_of draft in
      (
        record {
          accepted_tokens = tokens;
          rejected_count = length draft - length tokens;
          corrected_token = corrected;
        },
        h,
        rw (not_empty, decoded, after_batch) refl,
        verdict,
        omega (arith, short, size),
      )
