-- ===== src/Examples/Drafting.antt =====
-- The speculative decoder at a concrete model.
use sovranx.Prelude.{
  ℕ, ◌+◌, ◌%◌, ◌≡◌, refl, sym, ap, ap₂, ok-injective, ◌∙◌, ◌⊎◌, true, false, List, [], ◌∷◌, ◌++◌,
  none, ok, suc, length, take, take-length-append, ◌==◌, arith,
}
use sovranx.Speculative.Decoder.{raised, prompt_lookup, Config, Calls, Decoder, Flow, returned}
use sovranx.Speculative.Decoder.Bounds.{IsEnded}
use sovranx.Speculative.Decoder.Generation.{generate_stream-IsEnded, generate_stream-plain}
use sovranx.Speculative.Decoder.Greedy.{IsGreedyModel, plain}
use sovranx.Speculative.Decoder.Steps.{Stopped, Throws}
use sovranx.Speculative.Decoder.Stream.{generate_stream, observe_guard}
use sovranx.Speculative.Verify.{decode_failed, Models, VerifyError}

-- A model that counts its tokens in threes; its state is the tokens that it holds, and so are its logits.
abbrev counting : Models
counting = record {
  State = List ℕ;
  Error = Unit;
  Logits = List ℕ;
  Probs = ℕ;
  Rng = Unit;
  eos_token = 0;
  decode_append = λ ts st. ok (st ++ ts, st ++ ts);
  decode_batch = λ ts st. ok (λ i. st ++ take (i + 1) ts, st ++ ts);
  distribution = λ logits history. 5 + length logits % 3;
  draw = λ probs g. (probs, g);
  accepts = λ target probs d g. (d == target, g);
  correct = λ target probs g. (target, g);
}

abbrev counting_calls : Calls counting
counting_calls = record {
  reset = λ st. [];
  truncate_to = λ n st. ok (take n st);
  is_eog = λ t. t == 0;
  sample = λ logits history g. (5 + length logits % 3, g);
  one_hot = λ t. t;
  detokenize = λ ts. ok [];
  tokenize = λ text. ok [];
  vocab_size = 16;
  draft_vocab_size = none;
  context_length = 32;
  callback = λ ts. true;
}

abbrev looking_up : Config
looking_up = record {
  mode = prompt_lookup;
  draft_tokens = 4;
  min_draft_tokens = 2;
  max_draft_tokens = 8;
  lookup_max_ngram = 3;
  lookup_min_ngram = 1;
  corpus = none;
  use_speculative = true;
  disable_after_drafted = 64;
  disable_below_acceptance = 15;
}

abbrev fresh : Decoder counting
fresh = record {
  target = [];
  draft_model = [];
  current_draft_tokens = 4;
  speculative_active = true;
  total_draft_tokens = 0;
  total_accepted_tokens = 0;
  total_rejected_tokens = 0;
  generated_tokens = 0;
  sampler_rng = tt;
  accept_rng = tt;
  history = [];
  cur = 0;
  base = 0;
  emitted = 0;
  lookup_skip = false;
  delivered = [];
}

abbrev repeating : List ℕ
repeating = 7 ∷ 5 ∷ 6 ∷ 7 ∷ 5 ∷ []

abbrev Holds : List ℕ → List ℕ → Type 0
Holds st held = st ≡ held

abbrev id_list : List ℕ → List ℕ
id_list ts = ts

abbrev id_token : ℕ → ℕ
id_token t = t

one_more : (i : ℕ) → i + 1 ≡ suc i
one_more i = omega arith

counting-IsGreedyModel : IsGreedyModel counting counting_calls Holds id_list id_token
counting-IsGreedyModel = record {
  reset_holds = λ st. refl;
  append_holds = λ st st' l held ts h e.
      let p = ok-injective (st ++ ts, st ++ ts) (l, st') e in
      let longer : st ++ ts ≡ held ++ ts = ap (λ xs. xs ++ ts) h in
      (sym (ap (λ x. x.1) p) ∙ longer, sym (ap (λ x. x.0) p) ∙ longer);
  batch_holds = λ st st' logits held ts h e.
      let p = ok-injective ((λ i. st ++ take (i + 1) ts), st ++ ts) (logits, st') e in
      (
        sym (ap (λ x. x.1) p) ∙ ap (λ xs. xs ++ ts) h,
        λ i less. sym (ap (λ x. x.0 i) p) ∙ ap₂ (λ xs n. xs ++ take n ts) h (one_more i),
      );
  truncate_holds = λ st st' held ts h e.
      let p = ok-injective (take (length held) st) st' e in
      sym p ∙ ap (take (length held)) h ∙ take-length-append held ts;
  sample_best = λ l history g. refl;
  accepts_best = λ l history draft t g. refl;
  correct_best = λ l history draft t g h refused. refl;
}

generate_stream-IsEnded_example :
    (flow : Flow (VerifyError Unit)) × (r' : Decoder counting) × (generate_stream counting
        counting_calls looking_up 33 10 repeating tt tt fresh
      ≡ ok (flow, r', observe_guard looking_up r'.history))
    × Stopped counting flow
    × IsEnded counting counting_calls looking_up 10 repeating flow r'
generate_stream-IsEnded_example =
    generate_stream-IsEnded counting counting_calls looking_up 33 10 repeating tt tt fresh
      (omega arith) (omega arith) refl (omega arith) (omega arith) (omega arith)

generate_stream-plain_example :
    (flow : Flow (VerifyError Unit)) × (r' : Decoder counting) × (generate_stream counting
        counting_calls looking_up 33 10 repeating tt tt fresh
      ≡ ok (flow, r', observe_guard looking_up r'.history))
    × (((flow ≡ returned)
          × (r'.delivered ≡ plain counting counting_calls id_list id_token 10 repeating []))
        ⊎ ((e : Unit) × (flow ≡ raised (decode_failed e)) × Throws counting counting_calls e))
generate_stream-plain_example =
    generate_stream-plain counting counting_calls looking_up Holds id_list id_token 33 10 repeating
      tt tt fresh counting-IsGreedyModel (omega arith) (omega arith) refl (omega arith)
      (omega arith) (omega arith)
