-- ===== src/Backend.antt =====
-- The seam to llama.cpp, include/reame/core/llama_backend.hpp: its implementation is not part of the
-- repository, so the components take it as a parameter. `Holds` says which tokens a state represents.
use sovranx.Prelude.{ℕ, ◌≡◌, List, [], ◌++◌, Bytes, Outcome, ok, length}

pub record Backend : Type 1 where
  pub State : Type 0
  pub Error : Type 0
  pub Logits : Type 0
  pub reset : State → State
  pub decode_append : List ℕ → State → Outcome Error (Logits × State)
  pub state_data : State → Bytes
  -- A call that throws leaves some state behind.
  pub set_state : Bytes → ℕ → State → Outcome State State

-- What the documentation of the calls says of the tokens that the KV cache represents.
pub record IsBackend (b : Backend) (Holds : b.State → List ℕ → Type 0) : Type 0 where
  pub reset_holds : (s : b.State) → Holds (b.reset s) []
  pub append_holds :
      (s s' : b.State) (l : b.Logits) (held ts : List ℕ)
      → Holds s held
      → b.decode_append ts s ≡ ok (l, s')
      → Holds s' (held ++ ts)
  pub restore_holds :
      (s t : b.State) (held : List ℕ)
      → Holds s held
      → (t' : b.State) → b.set_state (b.state_data s) (length held) t ≡ ok t'
      → Holds t' held
