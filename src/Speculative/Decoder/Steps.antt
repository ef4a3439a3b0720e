-- ===== src/Speculative/Decoder/Steps.antt =====
-- What a round of src/speculative/speculative_decoder.cpp comes to, case by case, and how a property
-- passes through the pieces of a round and through the loop.
use sovranx.Prelude.{
  Outcome, subst, ℕ, ◌+◌, ◌<◌, ◌≡◌, refl, ◌⊎◌, inl, inr, Bool, true, false, Bool-cases, not, ◌&&◌,
  min, ◌-◌, Bytes, drop, List, [], ◌∷◌, map, length, length-map, ok, throw, Outcome-cases, leb,
  ◌==◌, if◌then◌else◌, arith,
}
use sovranx.Speculative.Decoder.{
  Config, Calls, Decoder, Flow, going, returned, raised, starved, is_model, some_or, Result,
  and_then,
}
use sovranx.Speculative.Decoder.Rounds.{
  deliver, plain_round, settle, verify_round, room_for_draft, model_round, lookup_tokens, from_form,
  from_corpus, lookup_round, check_vocab, armed_round, round,
}
use sovranx.Speculative.FormDraft.{propose}
use sovranx.Speculative.PromptLookup.{find_draft}
use sovranx.Speculative.Verify.{
  Models, Draft, VerificationResult, VerifyError, decode_failed, generate_draft, verify_batch,
  verify_batch-throw,
}

module _ (m : Models) where
  -- G where a piece goes on, Q where it ends the call; the fuel is not spent.
  abbrev pub After :
      (Decoder m → Type 0) → (Flow (VerifyError m.Error) → Decoder m → Type 0) → Result m → Type 0
  After G Q (going, r) = G r
  After G Q (returned, r) = Q returned r
  After G Q (raised e, r) = Q (raised e) r
  After G Q (starved, r) = ⊥

  pub and_then-After :
      (G H : Decoder m → Type 0) (Q : Flow (VerifyError m.Error) → Decoder m → Type 0)
      (x : Result m) (f : Decoder m → Result m)
      → After G Q x
      → ((r : Decoder m) → G r → After H Q (f r))
      → After H Q (and_then m x f)
  unfolding and_then
  and_then-After G H Q (going, r) f h k = k r h
  and_then-After G H Q (returned, r) f h k = h
  and_then-After G H Q (raised e, r) f h k = h
  and_then-After G H Q (starved, r) f h k = h

  pub After-imp :
      (G H : Decoder m → Type 0) (Q R : Flow (VerifyError m.Error) → Decoder m → Type 0)
      (x : Result m)
      → After G Q x
      → ((r : Decoder m) → G r → H r)
      → ((flow : Flow (VerifyError m.Error)) (r : Decoder m) → Q flow r → R flow r)
      → After H R x
  After-imp G H Q R (going, r) h k l = k r h
  After-imp G H Q R (returned, r) h k l = l returned r h
  After-imp G H Q R (raised e, r) h k l = l (raised e) r h
  After-imp G H Q R (starved, r) h k l = h

  pub After-both :
      (G H : Decoder m → Type 0) (Q R : Flow (VerifyError m.Error) → Decoder m → Type 0)
      (x : Result m)
      → After G Q x
      → After H R x
      → After (λ r. G r × H r) (λ flow r. Q flow r × R flow r) x
  After-both G H Q R (going, r) h k = (h, k)
  After-both G H Q R (returned, r) h k = (h, k)
  After-both G H Q R (raised e, r) h k = (h, k)
  After-both G H Q R (starved, r) h k = h

  abbrev pub Stopped : Flow (VerifyError m.Error) → Type 0
  Stopped flow = (flow ≡ returned) ⊎ ((e : VerifyError m.Error) × (flow ≡ raised e))

  -- What never goes on has stopped.
  pub After-Stopped :
      (Q : Flow (VerifyError m.Error) → Decoder m → Type 0) (x : Result m)
      → After (λ r. ⊥) Q x
      → Stopped x.0 × Q x.0 x.1
  After-Stopped Q (going, r) h = absurd h
  After-Stopped Q (returned, r) h = (inl refl, h)
  After-Stopped Q (raised e, r) h = (inr (e, refl), h)
  After-Stopped Q (starved, r) h = absurd h

-- What throws this error: a pass over some tokens, a roll-back, or the tokenizer.
pub data Throws (m : Models) (s : Calls m) (e : m.Error) : Type 0 where
  append_throws :
      (ts : List ℕ) (st : m.State) → 0 < length ts → m.decode_append ts st ≡ throw e → Throws m s e
  batch_throws :
      (ts : List ℕ) (st : m.State) → 0 < length ts → m.decode_batch ts st ≡ throw e → Throws m s e
  truncate_throws : (n : ℕ) (st : m.State) → s.truncate_to n st ≡ throw e → Throws m s e
  detokenize_throws : (ts : List ℕ) → s.detokenize ts ≡ throw e → Throws m s e
  tokenize_throws : (text : Bytes) → s.tokenize text ≡ throw e → Throws m s e

module _ (m : Models) (s : Calls m) (cfg : Config) (max_tokens : ℕ) where
  -- The sampler's draw behind a plain pass, and the state it is delivered in.
  abbrev pub after_pass : Decoder m → m.Logits × m.State → Decoder m
  after_pass r d = record r {
    target = d.1;
    base = r.base + 1;
    sampler_rng = (s.sample d.0 r.history r.sampler_rng).1;
    lookup_skip = false;
  }

  abbrev pub verified : Decoder m → ℕ → VerificationResult × m.Rng × m.State → Decoder m
  verified r drafted v = record r {
    accept_rng = v.1;
    target = v.2;
    total_draft_tokens = r.total_draft_tokens + drafted;
    total_accepted_tokens = r.total_accepted_tokens + length v.0.accepted_tokens;
    total_rejected_tokens = r.total_rejected_tokens + v.0.rejected_count;
  }

  abbrev pub drafted_by_model : Decoder m → m.Rng → m.State → Decoder m
  drafted_by_model r g st = record r { sampler_rng = g; draft_model = st }

  -- How a round ends the speculation, misses a draft, throws, decodes one token or verifies a draft.
  pub data RoundCase (r : Decoder m) : Result m → Type 0 where
    gives_up :
        (g : m.Rng) (st : m.State)
        → r.speculative_active ≡ true
        → RoundCase r
            (going, record r { speculative_active = false; sampler_rng = g; draft_model = st })
    misses : r.lookup_skip ≡ false → RoundCase r (going, record r { lookup_skip = true })
    fails :
        (e : m.Error) (skip : Bool)
        → Throws m s e
        → RoundCase r (raised (decode_failed e), record r { lookup_skip = skip })
    fails_drafted :
        (e : m.Error) (g : m.Rng) (st : m.State)
        → Throws m s e
        → RoundCase r (raised (decode_failed e), drafted_by_model r g st)
    decodes :
        (d : m.Logits × m.State)
        → m.decode_append (r.cur ∷ []) r.target ≡ ok d
        → RoundCase r
            (deliver m s cfg max_tokens (s.sample d.0 r.history r.sampler_rng).0 (after_pass r d))
    verifies :
        (draft : Draft m) (g : m.Rng) (st : m.State) (v : VerificationResult × m.Rng × m.State)
        → 0 < length draft
        → verify_batch m r.cur draft r.history r.accept_rng r.target ≡ ok v
        → RoundCase r (
            settle m s cfg max_tokens
              (length draft)
              v.0
              (verified (drafted_by_model r g st) (length draft) v))

  plain_round-RoundCase : (r : Decoder m) → RoundCase r (plain_round m s cfg max_tokens r)
  unfolding plain_round
  plain_round-RoundCase r = elim (Outcome-cases (m.decode_append (r.cur ∷ []) r.target)) [
    | inl (d, e) ↦ rw (plain_round, e) (decodes d e)
    | inr (e, h) ↦ rw (plain_round, h) (fails e false (append_throws _ _ (omega arith) h))
  ]

  verify_round-RoundCase :
      (draft : Draft m) (r : Decoder m) (g : m.Rng) (st : m.State)
      → 0 < length draft
      → RoundCase r (verify_round m s cfg max_tokens draft (drafted_by_model r g st))
  unfolding verify_round
  verify_round-RoundCase draft r g st some_draft =
      elim (Outcome-cases (verify_batch m r.cur draft r.history r.accept_rng r.target)) [
        | inl (v, e) ↦ rw (verify_round, e) (verifies draft g st v some_draft e)
        | inr (e, h) ↦
            let (cause, threw, named) =
              verify_batch-throw m r.cur draft r.history r.accept_rng r.target e some_draft h in
            rw (verify_round, h, named)
              (fails_drafted cause g st (batch_throws _ _ (omega arith) threw))
      ]

  model_round-RoundCase :
      (r : Decoder m) → r.speculative_active ≡ true → RoundCase r (model_round m s cfg max_tokens r)
  unfolding model_round
  model_round-RoundCase r active =
      elim (Outcome-cases (
        generate_draft m cfg.draft_tokens r.cur r.history (room_for_draft m s cfg max_tokens r)
          r.sampler_rng r.draft_model)) [
            | inr (e, h) ↦ rw (model_round, h) (gives_up e.1 r.draft_model active)
            | inl (d, e) ↦ elim (Bool-cases (length d.0 == 0)) [
              | inl empty ↦ rw (model_round, e, empty) (gives_up d.1 d.2 active)
              | inr drafted ↦
                  rw (model_round, e, drafted) (verify_round-RoundCase d.0 r d.1 d.2 (ground arith))
            ]
          ]

  abbrev one_hots : List ℕ → Draft m
  one_hots tokens = map (λ t. (t, s.one_hot t)) tokens

  throw-injective :
      {A : Type 0} (x y : m.Error) → ◌≡◌ {A = Outcome m.Error A} (throw x) (throw y) → x ≡ y
  throw-injective x y h = ground arith

  from_form-Throws :
      (history : List ℕ) (n_draft : ℕ) (e : m.Error)
      → from_form m s cfg max_tokens history n_draft ≡ throw e
      → Throws m s e
  unfolding from_form
  from_form-Throws history n_draft e h =
      let tail = drop (length history - min (length history) 48) history in
      elim (Outcome-cases (s.detokenize tail)) [
        | inr (cause, threw) ↦
            subst (Throws m s) (throw-injective cause e (rw threw at h))
              (detokenize_throws tail threw)
        | inl (text, read) ↦ elim (Bool-cases (length (propose text) == 0)) [
          | inl empty ↦ absurd (let k = rw (read, empty) at h in ground arith)
          | inr proposed ↦ elim (Outcome-cases (s.tokenize (propose text))) [
            | inr (cause, threw) ↦
                subst (Throws m s) (throw-injective cause e (rw (read, proposed, threw) at h))
                  (tokenize_throws (propose text) threw)
            | inl (tokens, split) ↦ absurd (let k = rw (read, proposed, split) at h in ground arith)
          ]
        ]
      ]

  lookup_tokens-Throws :
      (history : List ℕ) (n_draft : ℕ) (e : m.Error)
      → lookup_tokens m s cfg max_tokens history n_draft ≡ throw e
      → Throws m s e
  unfolding lookup_tokens
  lookup_tokens-Throws history n_draft e h =
      let own = find_draft cfg.lookup_max_ngram cfg.lookup_min_ngram history n_draft in
      let others = from_corpus m s cfg max_tokens cfg.corpus history n_draft in
      elim (Bool-cases (not (length own == 0))) [
        | inl found ↦ absurd (let k = rw found at h in ground arith)
        | inr missed ↦ elim (Bool-cases (not (length others == 0))) [
          | inl found ↦ absurd (let k = rw (missed, found) at h in ground arith)
          | inr both ↦ from_form-Throws history n_draft e (let k = rw (missed, both) at h in k)
        ]
      ]

  lookup_round-RoundCase :
      (r : Decoder m) → r.lookup_skip ≡ false → RoundCase r (lookup_round m s cfg max_tokens r)
  unfolding lookup_round
  lookup_round-RoundCase r armed =
      elim (Outcome-cases
        (lookup_tokens m s cfg max_tokens r.history (room_for_draft m s cfg max_tokens r))) [
          | inr (e, h) ↦ rw (lookup_round, h) (fails e r.lookup_skip (lookup_tokens-Throws _ _ e h))
          | inl (tokens, e) ↦ elim (Bool-cases (length tokens == 0)) [
            | inl empty ↦ rw (lookup_round, e, empty) (misses armed)
            | inr drafted ↦
                let size : length (one_hots tokens) ≡ length tokens = length-map tokens _ in
                let some_tokens : 0 < length tokens = ground arith in
                rw (lookup_round, e, drafted)
                  (verify_round-RoundCase (one_hots tokens) r r.sampler_rng r.draft_model
                    (omega (arith, size, some_tokens)))
          ]
        ]

  armed_round-RoundCase : (r : Decoder m) → RoundCase r (armed_round m s cfg max_tokens r)
  unfolding armed_round
  armed_round-RoundCase r = choose r.speculative_active r.lookup_skip (is_model cfg.mode) refl refl
    where
      choose :
          (active skip by_model : Bool)
          → r.speculative_active ≡ active
          → r.lookup_skip ≡ skip
          → RoundCase r (
              if active && not skip
              then (if by_model
                  then model_round m s cfg max_tokens r
                  else lookup_round m s cfg max_tokens r)
              else plain_round m s cfg max_tokens r)
      choose false skip by_model a k = plain_round-RoundCase r
      choose true true by_model a k = plain_round-RoundCase r
      choose true false true a k = model_round-RoundCase r a
      choose true false false a k = lookup_round-RoundCase r k

  pub round-RoundCase :
      (r : Decoder m) → RoundCase (check_vocab m s cfg max_tokens r) (round m s cfg max_tokens r)
  unfolding round
  round-RoundCase r = armed_round-RoundCase (check_vocab m s cfg max_tokens r)

  pub check_vocab_lem :
      (P : Decoder m → Type 0) (r : Decoder m)
      → P r
      → P (record r { speculative_active = false })
      → P (check_vocab m s cfg max_tokens r)
  unfolding check_vocab
  check_vocab_lem P r same off = choose (
      r.speculative_active
      && is_model cfg.mode
      && leb (some_or s.draft_vocab_size s.vocab_size) r.cur)
    where
      choose : (b : Bool) → P (if b then record r { speculative_active = false } else r)
      choose true = off
      choose false = same
