-- ===== src/Autoconfig.antt =====
-- The automatic configuration, src/core/autoconfig.cpp: the catalog of models and the defaults of a
-- machine.
pub mod Models
pub mod Defaults
use sovranx.Engine.{Config}
use sovranx.Http.{lower}
use sovranx.Prelude.{
  ℤ, pos, negsuc, lt_int, ℕ, ◌-◌, ◌^◌, Bool, true, false, ◌&&◌, ◌||◌, List, [], ◌∷◌, ◌++◌, Option,
  none, some, Bytes, codes, length, leb, ltb, ◌==◌, ◌===◌, if◌then◌else◌,
}

-- A model of the catalog, but for the line that describes it to a reader.
pub record ModelSpec : Type 0 where
  pub name : Bytes
  pub url : Bytes
  pub filename : Bytes
  pub default_ctx : ℕ

unfoldable pub model_catalog : List ModelSpec
model_catalog =
    record {
      name = codes "tinyllama";
      url =
          codes "https://huggingface.co/TheBloke/TinyLlama-1.1B-Chat-v1.0-GGUF/"
          ++ codes "resolve/main/tinyllama-1.1b-chat-v1.0.Q4_K_M.gguf";
      filename = codes "tinyllama-1.1b-chat-v1.0.Q4_K_M.gguf";
      default_ctx = 2048;
    }
    ∷ record {
      name = codes "qwen2.5-0.5b";
      url =
          codes "https://huggingface.co/Qwen/Qwen2.5-0.5B-Instruct-GGUF/resolve/"
          ++ codes "main/qwen2.5-0.5b-instruct-q4_k_m.gguf";
      filename = codes "qwen2.5-0.5b-instruct-q4_k_m.gguf";
      default_ctx = 4096;
    }
    ∷ record {
      name = codes "qwen2.5-1.5b";
      url =
          codes "https://huggingface.co/Qwen/Qwen2.5-1.5B-Instruct-GGUF/resolve/"
          ++ codes "main/qwen2.5-1.5b-instruct-q4_k_m.gguf";
      filename = codes "qwen2.5-1.5b-instruct-q4_k_m.gguf";
      default_ctx = 4096;
    }
    ∷ record {
      name = codes "qwen2.5-3b";
      url =
          codes "https://huggingface.co/Qwen/Qwen2.5-3B-Instruct-GGUF/resolve/"
          ++ codes "main/qwen2.5-3b-instruct-q4_k_m.gguf";
      filename = codes "qwen2.5-3b-instruct-q4_k_m.gguf";
      default_ctx = 4096;
    }
    ∷ record {
      name = codes "olmoe";
      url =
          codes "https://huggingface.co/bartowski/OLMoE-1B-7B-0924-Instruct-GGUF/"
          ++ codes "resolve/main/OLMoE-1B-7B-0924-Instruct-Q4_K_M.gguf";
      filename = codes "olmoe-1b-7b-instruct-q4_k_m.gguf";
      default_ctx = 4096;
    }
    ∷ record {
      name = codes "qwen3.5-9b";
      url =
          codes "https://huggingface.co/unsloth/Qwen3.5-9B-GGUF/resolve/"
          ++ codes "main/Qwen3.5-9B-Q4_K_M.gguf";
      filename = codes "qwen3.5-9b-q4_k_m.gguf";
      default_ctx = 8192;
    }
    ∷ []

-- s.rfind(t, 0) == 0.
unfoldable pub starts_with : Bytes → Bytes → Bool
starts_with [] s = true
starts_with (a ∷ t) [] = false
starts_with (a ∷ t) (b ∷ s) = a == b && starts_with t s

-- The first loop of resolve_model.
unfoldable pub exact_alias : Bytes → List ModelSpec → Option ModelSpec
exact_alias t [] = none
exact_alias t (m ∷ ms) =
    let found = exact_alias t ms in if lower m.name === t then some m else found

-- The second loop, with the match that it has so far.
unfoldable pub sole_prefix : Bytes → Option ModelSpec → List ModelSpec → Option ModelSpec
sole_prefix t match_in [] = match_in
sole_prefix t none (m ∷ ms) =
    let with_it = sole_prefix t (some m) ms in
    let without = sole_prefix t none ms in if starts_with t (lower m.name) then with_it else without
sole_prefix t (some old) (m ∷ ms) =
    let kept = sole_prefix t (some old) ms in if starts_with t (lower m.name) then none else kept

unfoldable pub or_else : Option ModelSpec → Option ModelSpec → Option ModelSpec
or_else none other = other
or_else (some m) other = some m

unfoldable pub resolve_model : Bytes → Option ModelSpec
resolve_model token =
    let t = lower token in or_else (exact_alias t model_catalog) (sole_prefix t none model_catalog)

-- From 2 ^ 31 on the conversion to int wraps around.
unfoldable pub auto_threads : ℕ → ℤ
auto_threads hw =
    if hw == 0
    then pos 1
    else if leb hw 4
    then pos hw
    else if ltb hw (2 ^ 31)
    then pos (hw - 1)
    else negsuc (2 ^ 32 - hw)

unfoldable pub has_slash : Bytes → Bool
has_slash [] = false
has_slash (c ∷ s) = c == b'/' || has_slash s

-- What stands before the last slash, nothing if there is none.
unfoldable pub directory : Bytes → Bytes
directory [] = []
directory (c ∷ s) = let rest = directory s in if has_slash s then c ∷ rest else []

unfoldable pub base : Bytes → Bytes → Bytes
base model_path home =
    let dir = directory model_path in
    if length home == 0
    then (if length dir == 0 then codes "." else dir) ++ codes "/.reame"
    else home ++ codes "/.reame"

unfoldable pub auto_config : Bytes → Bytes → ℕ → ℤ → Config
auto_config model_path home hw ctx = record {
  model_path = model_path;
  draft_model_path = [];
  n_ctx = if lt_int (pos 0) ctx then ctx else pos 4096;
  n_threads = auto_threads hw;
  use_mmap = true;
  use_mlock = false;
  kv_cache_type = codes "q8_0";
  n_ubatch = 0;
  use_speculative = true;
  use_prompt_lookup = true;
  draft_tokens = 16;
  cache_dir = base model_path home ++ codes "/cache";
  cache_max_mb = 512;
  cache_compress = true;
  cache_block_tokens = 256;
  n_parallel = pos 1;
}
