-- ===== src/Speculative/Decoder/Generation.antt =====
-- A whole call of generate_stream, src/speculative/speculative_decoder.cpp.
use sovranx.Prelude.{
  ℕ, ◌+◌, ◌-◌, ◌*◌, ◌≤◌, ◌<◌, ◌≡◌, refl, sym, ap, ap₂, ◌∙◌, subst, ◌⊎◌, inl, inr, Bool, true, false,
  Bool-cases, ◌&&◌, List, [], ◌∷◌, ◌++◌, append-nil, Outcome, ok, throw, Outcome-cases,
  ok-injective, length, length-take, take, get_or, get_or-last, ltb, ◌==◌, if◌then◌else◌, arith,
}
use sovranx.Speculative.Decoder.{Config, Calls, Decoder, Flow, returned, raised, is_model}
use sovranx.Speculative.Decoder.Bounds.{
  IsSound, IsEnded, load_le, IsSound-IsEnded, kept-IsSound, load, rounds-IsEnded,
}
use sovranx.Speculative.Decoder.Greedy.{IsGreedyModel, plain}
use sovranx.Speculative.Decoder.Greedy.Batch.{split_last}
use sovranx.Speculative.Decoder.Greedy.Output.{rounds-IsReference}
use sovranx.Speculative.Decoder.Greedy.Rounds.{IsFaithful, IsReference}
use sovranx.Speculative.Decoder.Steps.{
  After, and_then-After, Stopped, After-Stopped, Throws, append_throws,
}
use sovranx.Speculative.Decoder.Stream.{
  check_prompt, observe_guard, prefill, begin, prefill_draft, prefill_both, generation,
  generate_stream,
}
use sovranx.Speculative.Verify.{Models, VerifyError, empty_draft, decode_failed}

check_prompt-ok :
    (prompt : List ℕ) (n_ctx : ℕ)
    → 0 < length prompt
    → length prompt ≤ n_ctx
    → check_prompt prompt n_ctx ≡ ok tt
unfolding check_prompt
check_prompt-ok prompt n_ctx some_prompt fits =
    let not_empty : (length prompt == 0) ≡ false = ground arith in
    let short : ltb n_ctx (length prompt) ≡ false = ground arith in rw (not_empty, short) refl

module _ (m : Models) (s : Calls m) (cfg : Config) where
  with_draft :
      (G : Decoder m → Type 0) (r : Decoder m)
      → ((dst : m.State) (active : Bool)
          → G (record r { draft_model = dst; speculative_active = active }))
      → G (prefill_draft m s cfg r)
  unfolding prefill_draft
  with_draft G r k =
      choose (r.speculative_active && is_model cfg.mode)
        (prefill m s cfg (take r.base r.history) r.draft_model)
    where
      choose :
          (b : Bool) (o : Outcome m.Error m.State)
          → G (
              if b
              then (elim o [
                | throw e ↦ record r { speculative_active = false }
                | ok st ↦ record r { draft_model = st }
              ])
              else r)
      choose true (throw e) = k r.draft_model false
      choose true (ok st) = k st r.speculative_active
      choose false o = k r.draft_model r.speculative_active

  prefill_both-After :
      (G : Decoder m → Type 0) (Q : Flow (VerifyError m.Error) → Decoder m → Type 0) (r : Decoder m)
      → ((e : m.Error)
          → prefill m s cfg (take r.base r.history) r.target ≡ throw e
          → Q (raised (decode_failed e)) r)
      → ((st dst : m.State) (active : Bool)
          → prefill m s cfg (take r.base r.history) r.target ≡ ok st
          → G (record r { target = st; draft_model = dst; speculative_active = active }))
      → After m G Q (prefill_both m s cfg r)
  unfolding prefill_both
  prefill_both-After G Q r broken onward =
      elim (Outcome-cases (prefill m s cfg (take r.base r.history) r.target)) [
        | inr (e, h) ↦ rw (prefill_both, h) (broken e h)
        | inl (st, h) ↦
            rw (prefill_both, h)
              (with_draft G (record r { target = st }) (λ dst active. onward st dst active h))
      ]

  prefill-Throws :
      (tokens : List ℕ) (st : m.State) (e : m.Error)
      → prefill m s cfg tokens st ≡ throw e
      → Throws m s e
  unfolding prefill
  prefill-Throws tokens st e h = elim (Bool-cases (ltb 0 (length tokens))) [
    | inr none_held ↦ absurd (let k = rw none_held at h in ground arith)
    | inl some_held ↦ elim (Outcome-cases (m.decode_append tokens (s.reset st))) [
      | inr (cause, threw) ↦
          let k : throw cause ≡ throw e = rw (some_held, threw) at h in
          let same : cause ≡ e = ground arith in
          subst (Throws m s) same (append_throws tokens (s.reset st) (ground arith) threw)
      | inl (d, decoded) ↦ absurd (let k = rw (some_held, decoded) at h in ground arith)
    ]
  ]

  prefill-Holds :
      (Holds : m.State → List ℕ → Type 0) (scores : List ℕ → m.Logits) (best : m.Probs → ℕ)
      (laws : IsGreedyModel m s Holds scores best) (tokens : List ℕ) (st st' : m.State)
      → prefill m s cfg tokens st ≡ ok st'
      → Holds st' tokens
  unfolding prefill
  prefill-Holds Holds scores best laws tokens st st' h = elim (Bool-cases (ltb 0 (length tokens))) [
    | inl some_held ↦ elim (Outcome-cases (m.decode_append tokens (s.reset st))) [
      | inr (cause, threw) ↦ absurd (let k = rw (some_held, threw) at h in ground arith)
      | inl (d, decoded) ↦
          let k : ok d.1 ≡ ok st' = rw (some_held, decoded) at h in
          let (after, scored) =
            laws.append_holds (s.reset st) d.1 d.0 [] tokens (laws.reset_holds st) decoded in
          subst (λ st. Holds st tokens) (ok-injective d.1 st' k) after
    ]
    | inr none_held ↦
        let k : ok (s.reset st) ≡ ok st' = rw none_held at h in
        let empty : [] ≡ tokens = nothing tokens none_held in
        subst (Holds st') empty
          (subst (λ st. Holds st []) (ok-injective (s.reset st) st' k) (laws.reset_holds st))
  ]
    where
      nothing : (xs : List ℕ) → ltb 0 (length xs) ≡ false → [] ≡ xs
      nothing [] e = refl
      nothing (x ∷ xs) e = absurd (ground arith)

  begin-IsSound :
      (max_tokens : ℕ) (prompt : List ℕ) (sampler accept : m.Rng) (r : Decoder m)
      → length prompt ≤ s.context_length
      → r.total_accepted_tokens + r.total_rejected_tokens ≡ r.total_draft_tokens
      → cfg.min_draft_tokens ≤ r.current_draft_tokens
      → r.current_draft_tokens ≤ cfg.max_draft_tokens
      → IsSound m s cfg max_tokens prompt (begin m s cfg prompt sampler accept r)
  unfolding begin
  begin-IsSound max_tokens prompt sampler accept r fits total low high = record {
    grown = append-nil prompt;
    spoken = tt;
    counted = refl;
    asked = omega arith;
    fits = fits;
    adds_up = total;
    at_least = low;
    at_most = high;
  }

  generate_stream-ok :
      (fuel max_tokens : ℕ) (prompt : List ℕ) (sampler accept : m.Rng) (r : Decoder m)
      → 0 < length prompt
      → length prompt ≤ s.context_length
      → let (flow, r') =
          generation m s cfg fuel max_tokens (begin m s cfg prompt sampler accept r) in
        generate_stream m s cfg fuel max_tokens prompt sampler accept r
        ≡ ok (flow, r', observe_guard cfg r'.history)
  unfolding generate_stream
  generate_stream-ok fuel max_tokens prompt sampler accept r some_prompt fits =
      rw (generate_stream, check_prompt-ok prompt s.context_length some_prompt fits) refl

  -- A call on a prompt that is not empty and fits the context ends, by returning or throwing. Its
  -- callback has then got at most max_tokens tokens, none of which ends generation, the history has not
  -- outgrown the context and is the prompt with them, but for the last one if that was refused, the
  -- counters of drafted tokens add up if they did before, and the memory has observed the history. The
  -- draft length is within its bounds; three rounds for each token and two more are fuel enough.
  pub generate_stream-IsEnded :
      (fuel max_tokens : ℕ) (prompt : List ℕ) (sampler accept : m.Rng) (r : Decoder m)
      → 0 < length prompt
      → length prompt ≤ s.context_length
      → r.total_accepted_tokens + r.total_rejected_tokens ≡ r.total_draft_tokens
      → cfg.min_draft_tokens ≤ r.current_draft_tokens
      → r.current_draft_tokens ≤ cfg.max_draft_tokens
      → 3 * max_tokens + 2 < fuel
      → (flow : Flow (VerifyError m.Error)) × (r' : Decoder m) × (generate_stream m s cfg fuel
            max_tokens prompt sampler accept r
          ≡ ok (flow, r', observe_guard cfg r'.history))
        × Stopped m flow
        × IsEnded m s cfg max_tokens prompt flow r'
  unfolding generation begin
  generate_stream-IsEnded fuel max_tokens prompt sampler accept r some_prompt fits total low high
        enough =
      let sound = begin-IsSound max_tokens prompt sampler accept r fits total low high in
      let r0 = begin m s cfg prompt sampler accept r in
      let Ended = IsEnded m s cfg max_tokens prompt in
      let Ready : Decoder m → Type 0 =
        λ r. IsSound m s cfg max_tokens prompt r × (load m s cfg max_tokens prompt r < fuel) in
      let x = generation m s cfg fuel max_tokens r0 in
      let ends : After m (λ r. ⊥) Ended x =
        and_then-After m Ready (λ r. ⊥) Ended (prefill_both m s cfg r0) _
          (prefill_both-After Ready Ended r0
            (λ e threw.
              IsSound-IsEnded m s cfg max_tokens prompt (raised (decode_failed e)) r0 sound)
            (λ st dst active h. (
              kept-IsSound m s cfg max_tokens prompt r0 st dst r0.sampler_rng r0.accept_rng r0.base
                  active r0.lookup_skip sound,
              let l =
                    load_le m s cfg max_tokens prompt
                      (record r0 { target = st; draft_model = dst; speculative_active = active }) in
                  omega (arith, l, enough),
            )))
          (λ r (h, l). rounds-IsEnded m s cfg max_tokens prompt fuel r l h) in
      let (stopped, ended) = After-Stopped m Ended x ends in
      (
        x.0,
        x.1,
        generate_stream-ok fuel max_tokens prompt sampler accept r some_prompt fits,
        stopped,
        ended,
      )

  begin-IsFaithful :
      (Holds : m.State → List ℕ → Type 0) (scores : List ℕ → m.Logits) (best : m.Probs → ℕ)
      (laws : IsGreedyModel m s Holds scores best) (max_tokens : ℕ) (prompt : List ℕ)
      (sampler accept : m.Rng) (r : Decoder m) (st dst : m.State) (active : Bool)
      → 0 < length prompt
      → let r0 = begin m s cfg prompt sampler accept r in
        prefill m s cfg (take r0.base r0.history) r0.target ≡ ok st
        → IsFaithful m s cfg max_tokens prompt Holds scores best
            (record (begin m s cfg prompt sampler accept r) {
              target = st;
              draft_model = dst;
              speculative_active = active;
            })
  unfolding begin
  begin-IsFaithful Holds scores best laws max_tokens prompt sampler accept r st dst active
        some_prompt h =
      let held = take (length prompt - 1) prompt in
      let (last, split) = split_last prompt some_prompt in
      let size = length-take (length prompt - 1) prompt in
      let newest : get_or prompt (length prompt - 1) 0 ≡ last =
        ap₂ (λ xs n. get_or xs n 0) split (omega (arith, size)) ∙ get_or-last held last 0 in
      record {
        plainly = record {
          older = held;
          newest = split ∙ ap (λ t. held ++ (t ∷ [])) (sym newest);
          follows = ap (λ n. plain m s scores best n prompt []) (omega arith);
        };
        synced = λ more. record {
          held = held;
          last = last;
          all_but_last = append-nil prompt ∙ split;
          position = omega (arith, size);
          cached = prefill-Holds Holds scores best laws held r.target st h;
        };
      }

  -- Greedy speculative decoding is greedy decoding: on a prompt that is not empty and fits the context,
  -- a call returns and has delivered exactly the tokens that plain decoding delivers without a cache,
  -- whatever was drafted, accepted and rolled back on the way; or it throws an error on, which a pass
  -- over some tokens, a roll-back or the tokenizer threw. The model's scores depend on the tokens alone and the samplers take the preferred token. The counters and
  -- the draft length are consistent, and the fuel is enough.
  pub generate_stream-plain :
      (Holds : m.State → List ℕ → Type 0) (scores : List ℕ → m.Logits) (best : m.Probs → ℕ)
      (fuel max_tokens : ℕ) (prompt : List ℕ) (sampler accept : m.Rng) (r : Decoder m)
      → IsGreedyModel m s Holds scores best
      → 0 < length prompt
      → length prompt ≤ s.context_length
      → r.total_accepted_tokens + r.total_rejected_tokens ≡ r.total_draft_tokens
      → cfg.min_draft_tokens ≤ r.current_draft_tokens
      → r.current_draft_tokens ≤ cfg.max_draft_tokens
      → 3 * max_tokens + 2 < fuel
      → (flow : Flow (VerifyError m.Error)) × (r' : Decoder m) × (generate_stream m s cfg fuel
            max_tokens prompt sampler accept r
          ≡ ok (flow, r', observe_guard cfg r'.history))
        × (((flow ≡ returned) × (r'.delivered ≡ plain m s scores best max_tokens prompt []))
            ⊎ ((e : m.Error) × (flow ≡ raised (decode_failed e)) × Throws m s e))
  unfolding generation begin
  generate_stream-plain Holds scores best fuel max_tokens prompt sampler accept r laws some_prompt
        fits total low high enough =
      let sound = begin-IsSound max_tokens prompt sampler accept r fits total low high in
      let r0 = begin m s cfg prompt sampler accept r in
      let Faithful = IsFaithful m s cfg max_tokens prompt Holds scores best in
      let Sound = IsSound m s cfg max_tokens prompt in
      let Reference = IsReference m s cfg max_tokens prompt Holds scores best in
      let todo = load m s cfg max_tokens prompt in
      let Ready : Decoder m → Type 0 = λ r. (Sound r × Faithful r) × (todo r < fuel) in
      let x = generation m s cfg fuel max_tokens r0 in
      let ends : After m (λ r. ⊥) Reference x =
        and_then-After m Ready (λ r. ⊥) Reference (prefill_both m s cfg r0) _
          (prefill_both-After Ready Reference r0
            (λ e threw. prefill-Throws (take r0.base r0.history) r0.target e threw)
            (λ st dst active h. (
              (
                kept-IsSound m s cfg max_tokens prompt r0 st dst r0.sampler_rng r0.accept_rng
                    r0.base active r0.lookup_skip sound,
                begin-IsFaithful Holds scores best laws max_tokens prompt sampler accept r st dst
                    active some_prompt h,
              ),
              let l =
                    load_le m s cfg max_tokens prompt
                      (record r0 { target = st; draft_model = dst; speculative_active = active }) in
                  omega (arith, l, enough),
            )))
          (λ r (h, l).
            let (sound, faithful) = h in
            rounds-IsReference m s cfg max_tokens prompt Holds scores best laws fuel r l sound
              faithful) in
      let (stopped, reference) = After-Stopped m Reference x ends in
      (
        x.0,
        x.1,
        generate_stream-ok fuel max_tokens prompt sampler accept r some_prompt fits,
        elim stopped [
          | inl e ↦ inl (e, subst (λ flow. Reference flow x.1) e reference)
          | inr (empty_draft, e) ↦ absurd (subst (λ flow. Reference flow x.1) e reference)
          | inr (decode_failed err, e) ↦
              inr (err, e, subst (λ flow. Reference flow x.1) e reference)
        ],
      )
