-- ===== src/Speculative/Decoder/Stream.antt =====
-- generate_stream and generate, src/speculative/speculative_decoder.cpp: the checks on the prompt, the
-- first pass of both models, the rounds, and what the memory of the server observes on every way out.
use sovranx.Corpus.{Corpus, observe}
use sovranx.Prelude.{
  ℕ, ◌-◌, false, ◌&&◌, List, [], Option, none, some, Outcome, ok, throw, length, take, get_or, ltb,
  ◌==◌, if◌then◌else◌,
}
use sovranx.Speculative.Decoder.{
  Config, Calls, Decoder, Flow, going, raised, is_model, Result, and_then,
}
use sovranx.Speculative.Decoder.Rounds.{rounds}
use sovranx.Speculative.Verify.{Models, VerifyError, decode_failed}

pub data PromptError : Type 0 where
  prompt_is_empty : PromptError
  prompt_too_long : PromptError

unfoldable pub check_prompt : List ℕ → ℕ → Outcome PromptError (Unit {0})
check_prompt prompt n_ctx =
    if length prompt == 0
    then throw prompt_is_empty
    else if ltb n_ctx (length prompt)
    then throw prompt_too_long
    else ok tt

-- The guard's destructor: it observes the history in prompt-lookup mode.
unfoldable pub observe_guard : Config → List ℕ → Option Corpus
observe_guard cfg history = elim cfg.corpus [
  | none ↦ none
  | some c ↦ some (if is_model cfg.mode then c else observe history c)
]

module _ (m : Models) (s : Calls m) (cfg : Config) where
  -- A sequence that is cleared and holds these tokens.
  unfoldable pub prefill : List ℕ → m.State → Outcome m.Error m.State
  prefill tokens st =
      if ltb 0 (length tokens)
      then elim (m.decode_append tokens (s.reset st)) [ throw e ↦ throw e | ok d ↦ ok d.1 ]
      else ok (s.reset st)

  -- The locals at their start. The generators are seeded anew by each call.
  unfoldable pub begin : List ℕ → m.Rng → m.Rng → Decoder m → Decoder m
  begin prompt sampler accept r = record r {
    sampler_rng = sampler;
    accept_rng = accept;
    history = prompt;
    cur = get_or prompt (length prompt - 1) 0;
    base = length prompt - 1;
    emitted = 0;
    lookup_skip = false;
    delivered = [];
  }

  -- A draft model that is broken leaves plain decoding.
  unfoldable pub prefill_draft : Decoder m → Decoder m
  prefill_draft r =
      if r.speculative_active && is_model cfg.mode
      then elim (prefill (take r.base r.history) r.draft_model) [
        | throw e ↦ record r { speculative_active = false }
        | ok st ↦ record r { draft_model = st }
      ]
      else r

  unfoldable pub prefill_both : Decoder m → Result m
  prefill_both r = elim (prefill (take r.base r.history) r.target) [
    | throw e ↦ (raised (decode_failed e), r)
    | ok st ↦ (going, prefill_draft (record r { target = st }))
  ]

  unfoldable pub generation : ℕ → ℕ → Decoder m → Result m
  generation fuel max_tokens r = and_then m (prefill_both r) (λ r. rounds m s cfg max_tokens fuel r)

  -- generate_stream, from the decoder and the two generators: how it ends, the decoder, and the memory.
  unfoldable pub generate_stream :
      ℕ
      → ℕ
      → List ℕ
      → m.Rng
      → m.Rng
      → Decoder m
      → Outcome PromptError (Flow (VerifyError m.Error) × Decoder m × Option Corpus)
  generate_stream fuel max_tokens prompt sampler accept r =
      elim (check_prompt prompt s.context_length) [
        | throw e ↦ throw e
        | ok checked ↦
            let (flow, r') = generation fuel max_tokens (begin prompt sampler accept r) in
            ok (flow, r', observe_guard cfg r'.history)
      ]
