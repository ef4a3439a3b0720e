-- ===== src/Engine.antt =====
-- The engine, src/core/engine.cpp: its configuration, and which parts a configuration puts together.
-- The integers that it checks are signed; in the others, what is not positive stands as 0; floating-point settings are in hundredths.
pub mod Assembly
pub mod Stream
pub mod Output
pub mod Replay
pub mod Sessions
use sovranx.Decimal.{to_string}
use sovranx.Prelude.{
  ℤ, pos, le_int, lt_int, ℕ, ◌+◌, ◌*◌, max, Bool, true, false, not, ◌&&◌, ◌||◌, List, [], ◌∷◌, ◌++◌,
  Option, none, some, Bytes, codes, Outcome, ok, throw, length, leb, ltb, ◌==◌, ◌===◌,
  if◌then◌else◌,
}

pub record GenerationConfig : Type 0 where
  pub max_tokens : ℕ
  pub temperature : ℕ
  pub top_p : ℕ
  pub repeat_penalty : ℕ
  pub repeat_last_n : ℕ
  pub seed : ℕ
  pub echo_prompt : Bool

-- ReameEngine::Config, but for the archive and what is only printed.
pub record Config : Type 0 where
  pub model_path : Bytes
  pub draft_model_path : Bytes
  pub n_ctx : ℤ
  pub n_threads : ℤ
  pub use_mmap : Bool
  pub use_mlock : Bool
  pub kv_cache_type : Bytes
  pub n_ubatch : ℕ
  pub use_speculative : Bool
  pub use_prompt_lookup : Bool
  pub draft_tokens : ℕ
  pub cache_dir : Bytes
  pub cache_max_mb : ℕ
  pub cache_compress : Bool
  pub cache_block_tokens : ℕ
  pub n_parallel : ℤ

pub data ConfigError : Type 0 where
  model_path_is_empty : ConfigError
  n_ctx_not_positive : ConfigError
  n_threads_not_positive : ConfigError
  unknown_kv_cache_type : ConfigError
  n_parallel_below_one : ConfigError
  parallel_with_speculation : ConfigError
  parallel_with_disk_cache : ConfigError
  parallel_with_draft_model : ConfigError

unfoldable pub known_cache_type : Bytes → Bool
known_cache_type t = t === codes "f16" || t === codes "q8_0" || t === codes "q4_0"

unfoldable pub validate : Config → Outcome ConfigError (Unit {0})
validate c =
    if length c.model_path == 0
    then throw model_path_is_empty
    else if le_int c.n_ctx (pos 0)
    then throw n_ctx_not_positive
    else if le_int c.n_threads (pos 0)
    then throw n_threads_not_positive
    else if not (known_cache_type c.kv_cache_type)
    then throw unknown_kv_cache_type
    else if lt_int c.n_parallel (pos 1)
    then throw n_parallel_below_one
    else if lt_int (pos 1) c.n_parallel
        && (c.use_prompt_lookup || not (length c.draft_model_path == 0))
    then throw parallel_with_speculation
    else if lt_int (pos 1) c.n_parallel && not (length c.cache_dir == 0)
    then throw parallel_with_disk_cache
    else ok tt

pub record ModelParams : Type 0 where
  pub path : Bytes
  pub context_length : ℤ
  pub threads : ℤ
  pub use_mmap : Bool
  pub use_mlock : Bool
  pub kv_cache_type : Bytes
  pub n_seq_max : ℤ
  pub n_ubatch : ℕ

unfoldable pub to_model_params : Config → ModelParams
to_model_params c = record {
  path = c.model_path;
  context_length = c.n_ctx;
  threads = c.n_threads;
  use_mmap = c.use_mmap;
  use_mlock = c.use_mlock;
  kv_cache_type = c.kv_cache_type;
  n_seq_max = if lt_int c.n_parallel (pos 1) then pos 1 else c.n_parallel;
  n_ubatch = c.n_ubatch;
}

unfoldable pub wants_draft_backend : Config → Bool
wants_draft_backend c =
    c.use_speculative && not c.use_prompt_lookup && not (length c.draft_model_path == 0)

-- missing_model_file_error: which file is missing, `exists` being the file system.
pub data MissingFile : Type 0 where
  model_file : MissingFile
  draft_model_file : MissingFile

unfoldable pub missing_model_file_error : (Bytes → Bool) → Config → Option MissingFile
missing_model_file_error exists c =
    if not (exists c.model_path)
    then some model_file
    else if wants_draft_backend c && not (exists c.draft_model_path)
    then some draft_model_file
    else none

-- The parts that the constructor puts together, besides the backend.
pub record Parts : Type 0 where
  pub scheduler : Bool
  pub cache : Bool
  pub decoder : Bool
  pub corpus : Bool

-- The constructor, on a backend with or without roll-back, and with or without a draft backend.
unfoldable pub assemble : Bool → Bool → Config → Outcome ConfigError Parts
assemble supports_rollback draft_backend c =
    let cache = not (length c.cache_dir == 0) in
    let decoder =
      c.use_speculative && supports_rollback && (draft_backend || c.use_prompt_lookup) in
    elim (validate c) [
      | throw e ↦ throw e
      | ok checked ↦
          if lt_int (pos 1) c.n_parallel && draft_backend
          then throw parallel_with_draft_model
          else if lt_int (pos 1) c.n_parallel
          then ok (record { scheduler = true; cache = false; decoder = false; corpus = false })
          else ok (record {
            scheduler = false;
            cache = cache;
            decoder = decoder;
            corpus = decoder && c.use_prompt_lookup && cache;
          })
    ]

-- Only what is deterministic is kept. The key is the hash of what it is made of.
unfoldable pub cacheable : GenerationConfig → Bool
cacheable g = g.temperature == 0

unfoldable pub cache_material : Bytes → Bytes → GenerationConfig → Bytes
cache_material tag prompt g = tag ++ (31 ∷ (to_string g.max_tokens ++ (31 ∷ prompt)))

unfoldable pub cache_key : (Bytes → Bytes) → Bytes → Bytes → GenerationConfig → Bytes
cache_key hex_hash tag prompt g = codes "resp:" ++ hex_hash (cache_material tag prompt g)

-- conclave_attempt of src/core/conclave.cpp: attempt 0 is the plain one, the others shift the seed and
-- are warm.
unfoldable pub conclave_attempt : GenerationConfig → ℕ → GenerationConfig
conclave_attempt g i =
    if i == 0 then g else record g { seed = g.seed + i; temperature = max g.temperature 70 }
