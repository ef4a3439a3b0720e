-- ===== src/Speculative/Decoder.antt =====
-- The speculative decoder, src/speculative/speculative_decoder.cpp: rounds of drafting, batched
-- verification and roll-back, with plain decoding as the way out: its configuration, its state and the
-- calls it makes. Clocks are left out. Configured numbers are not negative.
pub mod Rounds
pub mod Steps
pub mod Pieces
pub mod Stream
pub mod Bounds
pub mod Greedy
pub mod Generation
use sovranx.Corpus.{Corpus}
use sovranx.Prelude.{
  ℕ, ◌+◌, ◌-◌, ◌*◌, min, max, Bool, true, false, not, ◌&&◌, List, Option, none, some, Bytes,
  Outcome, ltb, ◌==◌, if◌then◌else◌,
}
use sovranx.Speculative.Verify.{Models, VerifyError}

pub data Mode : Type 0 where
  model_draft : Mode
  prompt_lookup : Mode

-- SpeculativeDecoder::Config; disable_below_acceptance in hundredths.
pub record Config : Type 0 where
  pub mode : Mode
  pub draft_tokens : ℕ
  pub min_draft_tokens : ℕ
  pub max_draft_tokens : ℕ
  pub lookup_max_ngram : ℕ
  pub lookup_min_ngram : ℕ
  pub corpus : Option Corpus
  pub use_speculative : Bool
  pub disable_after_drafted : ℕ
  pub disable_below_acceptance : ℕ

-- What generate_stream calls besides the samplers and the passes of `Models`. The callback answers to all
-- that was delivered, the newest token last. one_hot is the distribution of a proposed token, which stands in the vocabulary.
pub record Calls (m : Models) : Type 0 where
  pub reset : m.State → m.State
  pub truncate_to : ℕ → m.State → Outcome m.Error m.State
  pub is_eog : ℕ → Bool
  pub sample : m.Logits → List ℕ → m.Rng → ℕ × m.Rng
  pub one_hot : ℕ → m.Probs
  pub detokenize : List ℕ → Outcome m.Error Bytes
  pub tokenize : Bytes → Outcome m.Error (List ℕ)
  pub vocab_size : ℕ
  -- That of the draft model, if there is one.
  pub draft_vocab_size : Option ℕ
  pub context_length : ℕ
  pub callback : List ℕ → Bool

-- The members of the decoder, and the locals of generate_stream; the tokens that the callback got.
pub record Decoder (m : Models) : Type 0 where
  pub target : m.State
  pub draft_model : m.State
  pub current_draft_tokens : ℕ
  pub speculative_active : Bool
  pub total_draft_tokens : ℕ
  pub total_accepted_tokens : ℕ
  pub total_rejected_tokens : ℕ
  pub generated_tokens : ℕ
  pub sampler_rng : m.Rng
  pub accept_rng : m.Rng
  pub history : List ℕ
  pub cur : ℕ
  pub base : ℕ
  pub emitted : ℕ
  pub lookup_skip : Bool
  pub delivered : List ℕ

-- How a piece of the generation ends: it goes on, it returns, it throws, or the fuel is spent.
pub data Flow (E : Type 0) : Type 0 where
  going : Flow E
  returned : Flow E
  raised : E → Flow E
  starved : Flow E

unfoldable pub is_model : Mode → Bool
is_model model_draft = true
is_model prompt_lookup = false

unfoldable pub is_some {ℓ} : {A : Type ℓ} → Option A → Bool
is_some none = false
is_some (some a) = true

unfoldable pub some_or : Option ℕ → ℕ → ℕ
some_or none d = d
some_or (some n) d = n

-- The constructor's vocabulary test: |draft - target| > 128.
unfoldable pub vocabularies_differ : Option ℕ → ℕ → Bool
vocabularies_differ none target = false
vocabularies_differ (some draft) target = ltb 128 ((draft - target) + (target - draft))

-- SpeculativeDecoder's initial current_draft_tokens_ and speculative_active_.
unfoldable pub initial_draft_tokens : Config → ℕ
initial_draft_tokens cfg = min (max cfg.draft_tokens cfg.min_draft_tokens) cfg.max_draft_tokens

unfoldable pub initially_active : Config → Bool → Bool
initially_active cfg has_draft =
    cfg.use_speculative && (if is_model cfg.mode then has_draft else true)

-- SpeculativeMetrics::acceptance_rate against a bound in hundredths.
unfoldable pub acceptance_below : ℕ → ℕ → ℕ → Bool
acceptance_below drafted accepted bound =
    if drafted == 0 then ltb 0 bound else ltb (100 * accepted) (bound * drafted)

module _ (m : Models) where
  abbrev pub Result : Type 0
  Result = Flow (VerifyError m.Error) × Decoder m

  unfoldable pub and_then : Result → (Decoder m → Result) → Result
  and_then (going, r) f = f r
  and_then (returned, r) f = (returned, r)
  and_then (raised e, r) f = (raised e, r)
  and_then (starved, r) f = (starved, r)

  unfoldable pub maybe_auto_disable : Config → Decoder m → Decoder m
  maybe_auto_disable cfg r =
      if not r.speculative_active
      then r
      else if ltb r.total_draft_tokens cfg.disable_after_drafted
      then r
      else if acceptance_below r.total_draft_tokens r.total_accepted_tokens
          cfg.disable_below_acceptance
      then record r { speculative_active = false }
      else r
