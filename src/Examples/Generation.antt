-- ===== src/Examples/Generation.antt =====
-- The engine and the election at concrete inputs.
use sovranx.Autoconfig.{
  model_catalog, starts_with, exact_alias, sole_prefix, or_else, resolve_model, auto_config,
}
use sovranx.Autoconfig.Defaults.{Place, Suits, auto_config-assemble}
use sovranx.Autoconfig.Models.{first, sole, named, candidates, resolve_model-or_else}
use sovranx.Conclave.{
  start_number, scan_byte, digit_next, glued, is_alnum, scan, final_number, votes, Scores,
  generate_best,
}
use sovranx.Conclave.Best.{texts_from, generate_best-majority}
use sovranx.Conclave.Numbers.{final_number-to_string}
use sovranx.Decimal.{to_string}
use sovranx.Dict.{lookup, insert, erase, lookup-insert_self}
use sovranx.Engine.{
  GenerationConfig, Config, known_cache_type, validate, Parts, assemble, cacheable, cache_key,
}
use sovranx.Engine.Assembly.{IsValid, validate-IsValid, assemble-IsValid}
use sovranx.Engine.Output.{IsDecode, IsMade, generate_stream_impl-IsMade}
use sovranx.Engine.Replay.{IsArcaCache, generate_stream-replay}
use sovranx.Engine.Sessions.{
  session_id, store_session, save_session, load_session, load_session-save_session,
}
use sovranx.Engine.Stream.{
  Calls, Engine, ArcaCache, failing, check_tokens, prefill_prompt, produce, generate_tokens,
  generate_stream_impl, generate_and_set, generate_stream,
}
use sovranx.Examples.Storage.{
  tokens, Holds, tokens-IsBackend, no_snapshots, no_snapshots-IsSnapshots,
}
use sovranx.Http.{lower}
use sovranx.Prelude.{
  pos, le_int, lt_int, drop, concat, ℕ, ◌*◌, ◌<◌, ◌≡◌, refl, ap, sym, ◌↔◌, ◌⊎◌, true, false, not,
  ◌&&◌, ◌||◌, List, [], ◌∷◌, ◌++◌, map, none, some, Bytes, codes, Outcome, ok, ok-injective, length,
  ltb, ◌==◌, ◌===◌, if◌then◌else◌, arith,
}

final_number-to_string_example :
    final_number (codes "from 3,000 to -2.5, so" ++ (32 ∷ to_string 42)) ≡ to_string 42
final_number-to_string_example = final_number-to_string (codes "from 3,000 to -2.5, so") 42

-- Scores that tell nothing apart.
abbrev flat : Scores
flat = record {
  Score = Unit;
  nothing = tt;
  lowest = tt;
  ratio = λ m n. tt;
  plus = λ x y. tt;
  above = λ x y. false;
}

abbrev all_seven : ℕ → Outcome (Unit {0}) Bytes
all_seven i = ok (codes "so 7")

abbrev seven_text : ℕ → Bytes
seven_text i = codes "so 7"

seven_votes : 3 < 2 * votes (codes "7") (map final_number (texts_from seven_text 3 0))
unfolding votes final_number scan scan_byte start_number texts_from ◌===◌ digit_next glued is_alnum
seven_votes = omega arith

generate_best-majority_example :
    (out : Bytes) × (count : ℕ) × (generate_best flat all_seven 3 ≡ ok (out, count))
    × (final_number out ≡ codes "7")
generate_best-majority_example =
    generate_best-majority flat all_seven seven_text 3 (codes "7") (λ i less. refl) (omega arith)
      (omega arith) seven_votes

abbrev cached_lookup : Config
cached_lookup = record {
  model_path = codes "m.gguf";
  draft_model_path = [];
  n_ctx = pos 8192;
  n_threads = pos 8;
  use_mmap = true;
  use_mlock = false;
  kv_cache_type = codes "q8_0";
  n_ubatch = 0;
  use_speculative = true;
  use_prompt_lookup = true;
  draft_tokens = 16;
  cache_dir = codes "cache";
  cache_max_mb = 512;
  cache_compress = true;
  cache_block_tokens = 256;
  n_parallel = pos 1;
}

validate-IsValid_example : (validate cached_lookup ≡ ok tt) ↔ IsValid cached_lookup
validate-IsValid_example = validate-IsValid cached_lookup

abbrev all_parts : Parts
all_parts = record { scheduler = false; cache = true; decoder = true; corpus = true }

put_together : assemble true false cached_lookup ≡ ok all_parts
unfolding assemble validate known_cache_type ◌===◌ le_int lt_int
put_together = refl

assemble-IsValid_example :
    IsValid cached_lookup
    × ((false && (true || true || true)) ≡ false)
    × ((true && not true) ≡ false)
    × ((true && not (true && true)) ≡ false)
assemble-IsValid_example = assemble-IsValid true false cached_lookup all_parts put_together

-- A model that answers to any prompt with the length of its context, and a client that takes two pieces.
abbrev counting_calls : Calls tokens
counting_calls = record {
  Rng = Unit;
  seeded = λ seed. tt;
  sample = λ g logits history rng. (length history, tt);
  decode = λ ts st. ok (tt, ts);
  tokenize = λ prompt. ok prompt;
  token_piece = λ t. t ∷ [];
  is_eog = λ t. t == 0;
  context_length = 16;
  callback = λ pieces. ltb (length pieces) 3;
}

counting-IsDecode : IsDecode tokens Holds counting_calls no_snapshots
counting-IsDecode = record {
  decode_holds = λ st st' l ts e. sym (ap (λ x. x.1) (ok-injective (tt, ts) (l, st') e));
}

abbrev greedy : GenerationConfig
greedy = record {
  max_tokens = 5;
  temperature = 0;
  top_p = 95;
  repeat_penalty = 110;
  repeat_last_n = 64;
  seed = 42;
  echo_prompt = false;
}

abbrev started : Engine tokens no_snapshots
started = record {
  backend = [];
  context_tokens = [];
  sessions = [];
  next_session_id = 1;
  cache = none;
}

-- The callback refuses the third piece.
abbrev answered : Engine tokens no_snapshots
answered = record started { backend = 9 ∷ 9 ∷ 2 ∷ 3 ∷ []; context_tokens = 9 ∷ 9 ∷ 2 ∷ 3 ∷ [] }

abbrev three_pieces : List Bytes
three_pieces = (2 ∷ []) ∷ (3 ∷ []) ∷ (4 ∷ []) ∷ []

answer_ran :
    generate_stream_impl tokens counting_calls no_snapshots
      (codes "m")
      4
      greedy
      (9 ∷ 9 ∷ [])
      started
    ≡ ok (three_pieces, answered)
unfolding generate_stream_impl failing check_tokens generate_tokens prefill_prompt produce
answer_ran = refl

generate_stream_impl-IsMade_example :
    (((three_pieces ≡ (9 ∷ 9 ∷ []) ∷ [])
        × (false ≡ true)
        × (counting_calls.callback three_pieces ≡ false))
      × (answered ≡ started))
    ⊎ ((rng : Unit) × IsMade tokens Holds counting_calls no_snapshots (9 ∷ 9 ∷ []) [] 5 (record {
      tokens = 9 ∷ 9 ∷ 2 ∷ 3 ∷ [];
      state = 9 ∷ 9 ∷ 2 ∷ 3 ∷ [];
      rng = rng;
      pieces = three_pieces;
    }))
generate_stream_impl-IsMade_example =
    generate_stream_impl-IsMade tokens Holds counting_calls no_snapshots tokens-IsBackend
      counting-IsDecode (codes "m") no_snapshots-IsSnapshots greedy 4 (9 ∷ 9 ∷ []) (9 ∷ 9 ∷ [])
      three_pieces started answered (omega arith) (omega arith) tt refl answer_ran

-- An archive of the pairs that were set, the newest first, which refuses long values.
abbrev pairs : ArcaCache
pairs = record {
  Archive = List (Bytes × Bytes);
  get = λ k a. (lookup k a, a);
  set = λ k v a. if ltb (length v) 64 then insert k v a else a;
}

pairs-IsArcaCache : (key : Bytes) → IsArcaCache pairs key (λ v a. ltb (length v) 64 ≡ true)
pairs-IsArcaCache key = record {
  get_set = λ v a taken. rw taken (lookup-insert_self key v a);
  get_get = λ a. refl;
}

abbrev plain_hash : Bytes → Bytes
plain_hash s = s

abbrev kept_pairs : List (Bytes × Bytes)
kept_pairs = insert (cache_key plain_hash (codes "m") (9 ∷ 9 ∷ []) greedy) (2 ∷ 3 ∷ 4 ∷ []) []

answer_kept :
    generate_stream tokens counting_calls no_snapshots
      (codes "m")
      4
      pairs
      plain_hash
      greedy
      (9 ∷ 9 ∷ [])
      (some [])
      started
    ≡ ok (three_pieces, some kept_pairs, answered)
unfolding generate_stream generate_and_set cacheable lookup generate_stream_impl failing
    check_tokens generate_tokens prefill_prompt produce
answer_kept = refl

greedy_kept : (cacheable greedy && not greedy.echo_prompt) ≡ true
unfolding cacheable
greedy_kept = refl

generate_stream-replay_example :
    (a'' : List (Bytes × Bytes)) × (generate_stream tokens counting_calls no_snapshots
        (codes "m")
        4
        pairs
        plain_hash
        greedy
        (9 ∷ 9 ∷ [])
        (some kept_pairs)
        answered
      ≡ ok (concat three_pieces ∷ [], some a'', answered))
generate_stream-replay_example =
    generate_stream-replay tokens counting_calls no_snapshots (codes "m") 4 pairs plain_hash greedy
      (9 ∷ 9 ∷ []) [] kept_pairs started answered answered three_pieces
      (λ v a. ltb (length v) 64 ≡ true)
      (pairs-IsArcaCache (cache_key plain_hash (codes "m") (9 ∷ 9 ∷ []) greedy)) (λ missed. refl)
      greedy_kept answer_kept

abbrev opened : Engine tokens no_snapshots
opened = record answered { sessions = insert (session_id 1) [] []; next_session_id = 2 }

abbrev saved : Engine tokens no_snapshots
saved = record opened { sessions = insert (session_id 1) (9 ∷ 9 ∷ 2 ∷ 3 ∷ []) opened.sessions }

session_stored :
    save_session tokens counting_calls no_snapshots (codes "m") 4 (session_id 1) opened ≡ ok saved
unfolding save_session store_session lookup insert erase ◌===◌ to_string
session_stored = refl

abbrev gone_on : Engine tokens no_snapshots
gone_on = record saved { backend = 5 ∷ []; context_tokens = 5 ∷ [] }

load_session-save_session_example :
    (after : Engine tokens no_snapshots) × (load_session tokens counting_calls no_snapshots
        (codes "m")
        4
        (session_id 1)
        gone_on
      ≡ ok after)
    × (after.context_tokens ≡ 9 ∷ 9 ∷ 2 ∷ 3 ∷ [])
    × (after.backend ≡ 9 ∷ 9 ∷ 2 ∷ 3 ∷ [])
    × (after.sessions ≡ saved.sessions)
load_session-save_session_example =
    load_session-save_session tokens counting_calls no_snapshots (codes "m") 4 (session_id 1) opened
      saved gone_on tt (9 ∷ 9 ∷ 2 ∷ 3 ∷ []) session_stored refl refl (omega arith) refl

resolve_model-or_else_example :
    resolve_model (codes "Olm")
    ≡ or_else
        (first (named (lower (codes "Olm")) model_catalog))
        (sole (candidates (lower (codes "Olm")) model_catalog))
resolve_model-or_else_example = resolve_model-or_else (codes "Olm")

resolve_model_run :
    (resolve_model (codes "Olm") ≡ first (drop 4 model_catalog))
    × (resolve_model (codes "qwen2.5") ≡ none)
unfolding resolve_model exact_alias sole_prefix starts_with model_catalog or_else lower ◌===◌ first
resolve_model_run = (refl, refl)

auto_config-assemble_example :
    let c = auto_config (codes "/m.gguf") [] 8 (pos 0) in
    (assemble true false c
      ≡ ok (record { scheduler = false; cache = true; decoder = true; corpus = true }))
    × Suits 8 c.n_threads
    × ((place : Bytes) × (c.cache_dir ≡ place ++ codes "/.reame/cache")
        × Place (codes "/m.gguf") [] place)
auto_config-assemble_example =
    auto_config-assemble (codes "/m.gguf") [] 8 (pos 0) true (omega arith) (omega arith)
