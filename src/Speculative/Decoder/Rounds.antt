-- ===== src/Speculative/Decoder/Rounds.antt =====
-- The rounds of generate_stream, src/speculative/speculative_decoder.cpp: how a round drafts, verifies,
-- rolls back and delivers, and the loop over them.
use sovranx.Corpus
use sovranx.Corpus.{Corpus}
use sovranx.Prelude.{
  ℕ, zero, suc, ◌+◌, ◌-◌, min, Bool, true, false, not, ◌&&◌, List, [], ◌∷◌, ◌++◌, map, Option, none,
  some, Outcome, ok, throw, ◌>>=◌, length, take, drop, leb, ltb, ◌==◌, if◌then◌else◌,
}
use sovranx.Speculative.Decoder.{
  Config, Calls, Decoder, going, returned, raised, starved, is_model, is_some, some_or, Result,
  and_then, maybe_auto_disable,
}
use sovranx.Speculative.FormDraft.{propose}
use sovranx.Speculative.PromptLookup.{find_draft}
use sovranx.Speculative.Verify.{
  Models, Draft, VerificationResult, decode_failed, generate_draft, verify_batch,
  adapt_draft_length,
}

module _ (m : Models) (s : Calls m) (cfg : Config) (max_tokens : ℕ) where
  -- The condition of the loop.
  unfoldable pub unfinished : Decoder m → Bool
  unfinished r = ltb r.emitted max_tokens && ltb (length r.history) s.context_length

  -- The end of generation, the callback, and the token in the history.
  unfoldable pub deliver : ℕ → Decoder m → Result m
  deliver t r =
      let told = record r { delivered = r.delivered ++ (t ∷ []) } in
      if s.is_eog t
      then (returned, r)
      else if not (s.callback (r.delivered ++ (t ∷ [])))
      then (returned, told)
      else (
        going,
        record told {
          history = r.history ++ (t ∷ []);
          emitted = suc r.emitted;
          generated_tokens = suc r.generated_tokens;
          cur = t;
        },
      )

  unfoldable pub emit : List ℕ → Decoder m → Result m
  emit [] r = (going, r)
  emit (t ∷ ts) r =
      and_then m (deliver t r)
        (λ r. let rest = emit ts r in if unfinished r then rest else (going, r))

  unfoldable pub plain_round : Decoder m → Result m
  plain_round r = elim (m.decode_append (r.cur ∷ []) r.target) [
    | throw e ↦ (raised (decode_failed e), record r { lookup_skip = false })
    | ok d ↦
        let drawn = s.sample d.0 r.history r.sampler_rng in
        deliver drawn.0
          (record r { target = d.1; base = r.base + 1; sampler_rng = drawn.1; lookup_skip = false })
  ]

  -- The draft model's sequence is cut only where there is a draft model.
  unfoldable pub truncate_draft : ℕ → Decoder m → Result m
  truncate_draft keep r =
      if is_model cfg.mode && is_some s.draft_vocab_size
      then elim (s.truncate_to keep r.draft_model) [
        | throw e ↦ (raised (decode_failed e), r)
        | ok st ↦ (going, record r { draft_model = st; base = keep })
      ]
      else (going, record r { base = keep })

  unfoldable pub truncate_both : ℕ → Decoder m → Result m
  truncate_both keep r = elim (s.truncate_to keep r.target) [
    | throw e ↦ (raised (decode_failed e), r)
    | ok st ↦ truncate_draft keep (record r { target = st })
  ]

  unfoldable pub kv_sync : ℕ → VerificationResult → Decoder m → Result m
  kv_sync drafted v r = elim v.corrected_token [
    | none ↦ (going, record r { base = r.base + drafted })
    | some t ↦ truncate_both (r.base + 1 + length v.accepted_tokens) r
  ]

  unfoldable pub new_tokens : VerificationResult → List ℕ
  new_tokens v = elim v.corrected_token [
    | none ↦ v.accepted_tokens
    | some t ↦ v.accepted_tokens ++ (t ∷ [])
  ]

  unfoldable pub adapt : ℕ → ℕ → Decoder m → Decoder m
  adapt accepted drafted r = maybe_auto_disable m cfg (record r {
    current_draft_tokens =
        adapt_draft_length cfg.min_draft_tokens cfg.max_draft_tokens r.current_draft_tokens accepted
          drafted;
  })

  unfoldable pub settle : ℕ → VerificationResult → Decoder m → Result m
  settle drafted v r = and_then m (kv_sync drafted v r) (λ r.
      and_then m (emit (new_tokens v) r) (λ r. (going, adapt (length v.accepted_tokens) drafted r)))

  unfoldable pub verify_round : Draft m → Decoder m → Result m
  verify_round draft r = elim (verify_batch m r.cur draft r.history r.accept_rng r.target) [
    | throw e ↦ (raised e, r)
    | ok v ↦ settle (length draft) v.0 (record r {
      accept_rng = v.1;
      target = v.2;
      total_draft_tokens = r.total_draft_tokens + length draft;
      total_accepted_tokens = r.total_accepted_tokens + length v.0.accepted_tokens;
      total_rejected_tokens = r.total_rejected_tokens + v.0.rejected_count;
    })
  ]

  unfoldable pub room_for_draft : Decoder m → ℕ
  room_for_draft r = min r.current_draft_tokens (s.context_length - length r.history)

  -- A draft that fails or stays empty ends the speculation.
  unfoldable pub model_round : Decoder m → Result m
  model_round r =
      elim (generate_draft m cfg.draft_tokens r.cur r.history (room_for_draft r) r.sampler_rng
        r.draft_model) [
          | throw e ↦ (going, record r { speculative_active = false; sampler_rng = e.1 })
          | ok d ↦
              let drafted = record r { sampler_rng = d.1; draft_model = d.2 } in
              if length d.0 == 0
              then (going, record drafted { speculative_active = false })
              else verify_round d.0 drafted
        ]

  unfoldable pub from_corpus : Option Corpus → List ℕ → ℕ → List ℕ
  from_corpus none history n_draft = []
  from_corpus (some c) history n_draft = Corpus.draft history n_draft c

  -- The form of the text that the last 48 tokens stand for.
  unfoldable pub from_form : List ℕ → ℕ → Outcome m.Error (List ℕ)
  from_form history n_draft =
      s.detokenize (drop (length history - min (length history) 48) history) >>= (λ text.
        (if length (propose text) == 0 then ok [] else s.tokenize (propose text))
        >>= (λ tokens. ok (take n_draft tokens)))

  -- The history, the memory of the server, the form of the text: the first that proposes something.
  unfoldable pub lookup_tokens : List ℕ → ℕ → Outcome m.Error (List ℕ)
  lookup_tokens history n_draft =
      let own = find_draft cfg.lookup_max_ngram cfg.lookup_min_ngram history n_draft in
      let others = from_corpus cfg.corpus history n_draft in
      if not (length own == 0)
      then ok own
      else if not (length others == 0)
      then ok others
      else from_form history n_draft

  unfoldable pub lookup_round : Decoder m → Result m
  lookup_round r = elim (lookup_tokens r.history (room_for_draft r)) [
    | throw e ↦ (raised (decode_failed e), r)
    | ok tokens ↦
        if length tokens == 0
        then (going, record r { lookup_skip = true })
        else verify_round (map (λ t. (t, s.one_hot t)) tokens) r
  ]

  -- A token beyond the draft model's vocabulary ends the speculation.
  unfoldable pub check_vocab : Decoder m → Decoder m
  check_vocab r =
      if r.speculative_active
        && is_model cfg.mode
        && leb (some_or s.draft_vocab_size s.vocab_size) r.cur
      then record r { speculative_active = false }
      else r

  unfoldable pub armed_round : Decoder m → Result m
  armed_round r =
      if r.speculative_active && not r.lookup_skip
      then (if is_model cfg.mode then model_round r else lookup_round r)
      else plain_round r

  unfoldable pub round : Decoder m → Result m
  round r = armed_round (check_vocab r)

  -- The loop, on fuel.
  unfoldable pub rounds : ℕ → Decoder m → Result m
  rounds zero r = if unfinished r then (starved, r) else (returned, r)
  rounds (suc fuel) r =
      if unfinished r then and_then m (round r) (λ r. rounds fuel r) else (returned, r)
