-- ===== src/Engine/Stream.antt =====
-- Generation in src/core/engine.cpp where neither a scheduler nor a decoder runs: the transparent archive,
-- the prefill with or without the shared-prefix cache, and the loop of sampling and decoding.
use sovranx.Backend.{Backend}
use sovranx.Cache.Prefix.{PrefillError, decode_failed, Snapshots, prefill}
use sovranx.Engine.{GenerationConfig, cacheable, cache_key}
use sovranx.Prelude.{
  concat, ℕ, zero, suc, ◌-◌, Bool, not, ◌&&◌, List, [], ◌∷◌, ◌++◌, Option, none, some, Bytes,
  Outcome, ok, throw, length, take, get_or, leb, ltb, ◌==◌, if◌then◌else◌,
}

-- What the engine calls besides the seam: a pass over a fresh sequence, the tokenizer, and the sampler.
-- The callback answers to the pieces it got, the newest last.
pub record Calls (b : Backend) : Type 1 where
  pub Rng : Type 0
  pub seeded : ℕ → Rng
  pub sample : GenerationConfig → b.Logits → List ℕ → Rng → ℕ × Rng
  pub decode : List ℕ → b.State → Outcome b.Error (b.Logits × b.State)
  pub tokenize : Bytes → Outcome b.Error (List ℕ)
  pub token_piece : ℕ → Bytes
  pub is_eog : ℕ → Bool
  pub context_length : ℕ
  pub callback : List Bytes → Bool

-- ReameEngine::Impl, but for what never changes.
pub record Engine (b : Backend) (snaps : Snapshots b) : Type 0 where
  pub backend : b.State
  pub context_tokens : List ℕ
  pub sessions : List (Bytes × List ℕ)
  pub next_session_id : ℕ
  pub cache : Option snaps.Cache

pub data EngineError (E : Type 0) : Type 0 where
  prompt_tokenized_to_zero : EngineError E
  prompt_exceeds_context : EngineError E
  unknown_session : Bytes → EngineError E
  failed : PrefillError E → EngineError E

-- core::ArcaCache, include/reame/core/arca_cache.hpp.
pub record ArcaCache : Type 1 where
  pub Archive : Type 0
  pub get : Bytes → Archive → Option Bytes × Archive
  pub set : Bytes → Bytes → Archive → Archive

unfoldable pub failing {ℓ} : {E : Type 0} {A : Type ℓ} → Outcome E A → Outcome (EngineError E) A
failing (ok a) = ok a
failing (throw e) = throw (failed (decode_failed e))

module _ (b : Backend) (s : Calls b) (snaps : Snapshots b) where
  -- The locals of the loop, with the pieces that the callback got.
  pub record Run : Type 0 where
    pub tokens : List ℕ
    pub state : b.State
    pub rng : s.Rng
    pub pieces : List Bytes

  -- for (produced = 0; produced < max_tokens; ++produced), where `more` tokens are left to produce.
  unfoldable pub produce : GenerationConfig → ℕ → b.Logits → Run → Outcome (EngineError b.Error) Run
  produce g zero logits r = ok r
  produce g (suc more) logits r =
      let (next, rng) = s.sample g logits r.tokens r.rng in
      let pieces = r.pieces ++ (s.token_piece next ∷ []) in
      let told = record r { rng = rng; pieces = pieces } in
      let pushed = record told { tokens = r.tokens ++ (next ∷ []) } in
      if s.is_eog next
      then ok (record r { rng = rng })
      else if not (s.callback pieces)
      then ok told
      else if leb s.context_length (length (r.tokens ++ (next ∷ [])))
      then ok pushed
      else if more == 0
      then ok pushed
      else (elim (b.decode_append (next ∷ []) r.state) [
        | throw e ↦ throw (failed (decode_failed e))
        | ok d ↦ produce g more d.0 (record pushed { state = d.1 })
      ])

  module _ (tag : Bytes) (block : ℕ) where
    -- The prompt but its last token through the shared-prefix cache, then that token.
    unfoldable pub prefill_cached :
        List ℕ
        → snaps.Cache
        → b.State
        → Outcome (EngineError b.Error) (b.Logits × b.State × Option snaps.Cache)
    prefill_cached tokens c st =
        let front = take (length tokens - 1) tokens in
        let last = get_or tokens (length tokens - 1) 0 in
        elim (prefill b snaps tag block front c st) [
          | throw e ↦ throw (failed e)
          | ok filled ↦ elim (b.decode_append (last ∷ []) filled.2) [
            | throw e ↦ throw (failed (decode_failed e))
            | ok d ↦ ok (d.0, d.1, some filled.1)
          ]
        ]

    unfoldable pub prefill_prompt :
        List ℕ
        → Option snaps.Cache
        → b.State
        → Outcome (EngineError b.Error) (b.Logits × b.State × Option snaps.Cache)
    prefill_prompt tokens none st = elim (s.decode tokens st) [
      | throw e ↦ throw (failed (decode_failed e))
      | ok d ↦ ok (d.0, d.1, none)
    ]
    prefill_prompt tokens (some c) st = prefill_cached tokens c st

    unfoldable pub check_tokens : List ℕ → Outcome (EngineError b.Error) (Unit {0})
    check_tokens tokens =
        if length tokens == 0
        then throw prompt_tokenized_to_zero
        else if ltb s.context_length (length tokens)
        then throw prompt_exceeds_context
        else ok tt

    -- Behind the checks and the echo: the prefill and the loop.
    unfoldable pub generate_tokens :
        GenerationConfig
        → List ℕ
        → List Bytes
        → Engine b snaps
        → Outcome (EngineError b.Error) (List Bytes × Engine b snaps)
    generate_tokens g tokens pieces e = elim (prefill_prompt tokens e.cache e.backend) [
      | throw err ↦ throw err
      | ok filled ↦
          elim (produce g g.max_tokens filled.0 (record {
            tokens = tokens;
            state = filled.1;
            rng = s.seeded g.seed;
            pieces = pieces;
          })) [
            | throw err ↦ throw err
            | ok r ↦ ok (
              r.pieces,
              record e { backend = r.state; cache = filled.2; context_tokens = r.tokens },
            )
          ]
    ]

    -- generate_stream_impl: the pieces that the callback got, and the engine.
    unfoldable pub generate_stream_impl :
        GenerationConfig
        → Bytes
        → Engine b snaps
        → Outcome (EngineError b.Error) (List Bytes × Engine b snaps)
    generate_stream_impl g prompt e = elim (failing (s.tokenize prompt)) [
      | throw err ↦ throw err
      | ok tokens ↦ elim (check_tokens tokens) [
        | throw err ↦ throw err
        | ok checked ↦
            if g.echo_prompt && not (s.callback (prompt ∷ []))
            then ok (prompt ∷ [], e)
            else generate_tokens g tokens (if g.echo_prompt then prompt ∷ [] else []) e
      ]
    ]

    module _ (arca : ArcaCache) (hex_hash : Bytes → Bytes) where
      -- A miss: what is generated is kept under the key.
      unfoldable pub generate_and_set :
          GenerationConfig
          → Bytes
          → arca.Archive
          → Engine b snaps
          → Outcome (EngineError b.Error) (List Bytes × Option arca.Archive × Engine b snaps)
      generate_and_set g prompt a e = elim (generate_stream_impl g prompt e) [
        | throw err ↦ throw err
        | ok done ↦
            ok (done.0, some (arca.set (cache_key hex_hash tag prompt g) (concat done.0) a), done.1)
      ]

      -- generate_stream.
      unfoldable pub generate_stream :
          GenerationConfig
          → Bytes
          → Option arca.Archive
          → Engine b snaps
          → Outcome (EngineError b.Error) (List Bytes × Option arca.Archive × Engine b snaps)
      generate_stream g prompt none e = elim (generate_stream_impl g prompt e) [
        | throw err ↦ throw err
        | ok done ↦ ok (done.0, none, done.1)
      ]
      generate_stream g prompt (some a) e =
          let asked = arca.get (cache_key hex_hash tag prompt g) a in
          if cacheable g && not g.echo_prompt
          then (elim asked.0 [
            | some text ↦ ok (text ∷ [], some asked.1, e)
            | none ↦ generate_and_set g prompt asked.1 e
          ])
          else (elim (generate_stream_impl g prompt e) [
            | throw err ↦ throw err
            | ok done ↦ ok (done.0, some a, done.1)
          ])
