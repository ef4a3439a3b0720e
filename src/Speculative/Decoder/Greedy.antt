-- ===== src/Speculative/Decoder/Greedy.antt =====
-- Greedy sampling, as src/core/sampler.cpp does it at temperature 0, in the decoder of
-- src/speculative/speculative_decoder.cpp, and plain decoding as the reference for it.
pub mod Batch
pub mod Rounds
pub mod Output
use sovranx.Prelude.{
  ℕ, zero, suc, ◌+◌, ◌<◌, ◌≡◌, Bool, false, not, List, [], ◌∷◌, ◌++◌, Outcome, ok, length, take,
  leb, ◌==◌, if◌then◌else◌,
}
use sovranx.Speculative.Decoder.{Calls}
use sovranx.Speculative.Verify.{Models}

module _ (m : Models) (s : Calls m) where
  -- What the documentation of llama_backend.hpp says of the cached positions, and a model whose scores
  -- depend on the tokens alone. With the temperature at 0 a distribution has one token: the draw is that,
  -- a proposal is accepted if it is that, and a correction is that.
  pub record IsGreedyModel (Holds : m.State → List ℕ → Type 0) (scores : List ℕ → m.Logits)
      (best : m.Probs → ℕ) : Type 0 where
    pub reset_holds : (st : m.State) → Holds (s.reset st) []
    pub append_holds :
        (st st' : m.State) (l : m.Logits) (held ts : List ℕ)
        → Holds st held
        → m.decode_append ts st ≡ ok (l, st')
        → Holds st' (held ++ ts) × (l ≡ scores (held ++ ts))
    pub batch_holds :
        (st st' : m.State) (logits : ℕ → m.Logits) (held ts : List ℕ)
        → Holds st held
        → m.decode_batch ts st ≡ ok (logits, st')
        → Holds st' (held ++ ts)
          × ((i : ℕ) → i < length ts → logits i ≡ scores (held ++ take (suc i) ts))
    pub truncate_holds :
        (st st' : m.State) (held ts : List ℕ)
        → Holds st (held ++ ts)
        → s.truncate_to (length held) st ≡ ok st'
        → Holds st' held
    pub sample_best :
        (l : m.Logits) (history : List ℕ) (g : m.Rng)
        → (s.sample l history g).0 ≡ best (m.distribution l history)
    pub accepts_best :
        (l : m.Logits) (history : List ℕ) (draft : m.Probs) (t : ℕ) (g : m.Rng)
        → (m.accepts (m.distribution l history) draft t g).0
          ≡ (t == best (m.distribution l history))
    pub correct_best :
        (l : m.Logits) (history : List ℕ) (draft : m.Probs) (t : ℕ) (g h : m.Rng)
        → (m.accepts (m.distribution l history) draft t g).0 ≡ false
        → (m.correct (m.distribution l history) draft h).0 ≡ best (m.distribution l history)

  module _ (scores : List ℕ → m.Logits) (best : m.Probs → ℕ) where
    -- The token that the model prefers behind these.
    abbrev pub next : List ℕ → ℕ
    next history = best (m.distribution (scores history) history)

    -- Plain decoding without a cache: what is delivered in all, behind this history and what was
    -- delivered so far, with at most so many tokens more.
    unfoldable pub plain : ℕ → List ℕ → List ℕ → List ℕ
    plain zero history out = out
    plain (suc more) history out =
        let t = next history in
        let rest = plain more (history ++ (t ∷ [])) (out ++ (t ∷ [])) in
        if leb s.context_length (length history)
        then out
        else if s.is_eog t
        then out
        else if not (s.callback (out ++ (t ∷ [])))
        then out ++ (t ∷ [])
        else rest

    -- Each of the tokens is the one that the model prefers behind those before it.
    abbrev pub Preferred : List ℕ → List ℕ → Type 0
    Preferred history [] = Unit
    Preferred history (t ∷ ts) = (t ≡ next history) × Preferred (history ++ (t ∷ [])) ts
