-- ===== src/Examples/Storage.antt =====
-- The store, the snapshots and the prefix cache at concrete inputs.
use sovranx.Backend.{Backend, IsBackend}
use sovranx.Cache.Manager.{
  Zstd, flag_zstd, CacheManager, envelope, compress, pack, store_state, load_state,
}
use sovranx.Cache.Manager.Loads.{
  RoundTrips, Spoilt, other_checksum, load_state-store_state, load_state_damaged,
}
use sovranx.Cache.Prefix.{manager_snapshots, key_for, Snapshots}
use sovranx.Cache.Prefix.Managed.{key_for-IsU32, manager_snapshots-IsSnapshots}
use sovranx.Cache.Prefix.Prefill.{IsSnapshots}
use sovranx.Cache.Store.{
  Store, entry_size, empty, evict_until_fits, put, get, evict_loop, lru, older, remove, store_path,
}
use sovranx.Cache.Store.Budget.{IsSound, puts, gets, run, run-IsSound, empty-IsSound}
use sovranx.Cache.Store.Collisions.{both, collision_loses_both}
use sovranx.Cache.Store.Eviction.{evict_until_fits_least_recent}
use sovranx.Cache.Store.Invariant.{IsValid, evict_until_fits_lem}
use sovranx.Cache.Store.Reads.{get-put}
use sovranx.Dict.{lookup, erase}
use sovranx.Words.{checksum, u64_bytes, u32_bytes}
use sovranx.Prelude.{
  ◌===◌, ◌∙◌, ℕ, ◌+◌, ◌≤◌, ◌≡◌, ◌≢◌, refl, sym, ap, Bool, true, false, List, [], ◌∷◌, ◌++◌, none,
  some, Outcome, ok, throw, Bytes, codes, arith,
}

abbrev pub writes : Bytes → Bytes → Bool
writes path content = true

abbrev k : Bytes
k = codes "k"

-- Two entries in a store of 20 bytes.
abbrev small_store : Store
small_store = record {
  max_bytes = 20;
  entries =
      (codes "a", record { path = codes "A"; size = 8; recency = 1 })
      ∷ (codes "b", record { path = codes "B"; size = 9; recency = 2 })
      ∷ [];
  total_bytes = 17;
  next_recency = 3;
  files = [];
}

small_store-IsValid : IsValid small_store
unfolding lookup ◌===◌
small_store-IsValid = record {
  distinct = (refl, (refl, tt));
  total = refl;
  recent = (omega arith, (omega arith, tt));
}

run-IsSound_example : IsSound (run writes (empty 100) (puts k (codes "v") ∷ gets k ∷ []))
run-IsSound_example =
    run-IsSound writes (puts k (codes "v") ∷ gets k ∷ []) (empty 100) (empty-IsSound 100)

abbrev one_entry : Store
one_entry = run writes (empty 100) (puts k (codes "v") ∷ [])

k_stored : put writes k (codes "v") (empty 100) ≡ (true, (put writes k (codes "v") (empty 100)).1)
unfolding put entry_size empty evict_until_fits
k_stored = refl

get-put_example : (get k (put writes k (codes "v") (empty 100)).1).0 ≡ some (codes "v")
get-put_example =
    get-put writes k (codes "v") (empty 100) (put writes k (codes "v") (empty 100)).1 (omega arith)
      k_stored

evict_until_fits_lem_example : (evict_until_fits 10 small_store).total_bytes + 10 ≤ 20
evict_until_fits_lem_example =
    evict_until_fits_lem 10 small_store small_store-IsValid (λ h. omega arith) (omega arith)

a_evicted : lookup (codes "a") (evict_until_fits 10 small_store).entries ≡ none
unfolding lookup erase ◌===◌ evict_until_fits evict_loop lru older remove
a_evicted = refl

b_kept :
    lookup (codes "b") (evict_until_fits 10 small_store).entries
    ≡ some (record { path = codes "B"; size = 9; recency = 2 })
unfolding lookup erase ◌===◌ evict_until_fits evict_loop lru older remove
b_kept = refl

a_kept_before :
    lookup (codes "a") small_store.entries
    ≡ some (record { path = codes "A"; size = 8; recency = 1 })
unfolding lookup ◌===◌
a_kept_before = refl

evict_until_fits_least_recent_example : 1 ≤ 2
evict_until_fits_least_recent_example =
    evict_until_fits_least_recent 10 small_store (codes "a") (codes "b")
      (record { path = codes "A"; size = 8; recency = 1 })
      (record { path = codes "B"; size = 9; recency = 2 }) small_store-IsValid a_kept_before
      a_evicted b_kept

-- Two keys of one FNV-1a hash.
abbrev key1 : Bytes
key1 = codes "8yn0iYCKYHlIj4-BwPqk"

abbrev key2 : Bytes
key2 = codes "GReLUrM4wMqfg9yzV3KQ"

one_path : store_path key1 ≡ store_path key2
unfolding store_path checksum
one_path = refl

two_keys : key1 ≢ key2
two_keys h = ground arith

no_budget : (empty 0).max_bytes ≡ 0
unfolding empty
no_budget = refl

collision_loses_both_example :
    ((get key1 (both writes key1 key2 k k (empty 0))).0 ≡ none)
    × ((get key2 (get key1 (both writes key1 key2 k k (empty 0))).1).0 ≡ none)
collision_loses_both_example =
    collision_loses_both writes key1 key2 k k (empty 0) no_budget (λ path content. refl) two_keys
      one_path (omega arith)

-- A backend whose state is the list of its tokens.
abbrev pub tokens : Backend
tokens = record {
  State = List ℕ;
  Error = Unit;
  Logits = Unit;
  reset = λ s. [];
  decode_append = λ ts s. ok (tt, s ++ ts);
  state_data = λ s. s;
  set_state = λ bytes n s. ok bytes;
}

abbrev pub Holds : List ℕ → List ℕ → Type 0
Holds s held = s ≡ held

pub tokens-IsBackend : IsBackend tokens Holds
tokens-IsBackend = record {
  reset_holds = λ s. refl;
  append_holds = λ s s' l held ts h e. let e' : s ++ ts ≡ s' = ap second e in rw (sym e', h);
  restore_holds = λ s t held h t' e. let e' : s ≡ t' = ap ok_or_nil e in sym e' ∙ h;
}
  where
    second : Outcome tokens.Error (tokens.Logits × tokens.State) → List ℕ
    second (ok (l, s)) = s
    second (throw e) = []

    ok_or_nil : Outcome tokens.State tokens.State → List ℕ
    ok_or_nil (ok s) = s
    ok_or_nil (throw e) = e

abbrev pub fresh_manager : CacheManager
fresh_manager = record {
  store = empty 0;
  compressed = true;
  stats = record { hits = 0; misses = 0; stores = 0 };
}

abbrev after_store : CacheManager
after_store = record {
  store = (put writes k (envelope (b'R' ∷ 5 ∷ 6 ∷ []) 2) (empty 0)).1;
  compressed = true;
  stats = record { hits = 0; misses = 0; stores = 1 };
}

state_stored :
    store_state tokens none writes k (5 ∷ 6 ∷ []) 2 fresh_manager ≡ ok (true, after_store)
unfolding store_state pack compress put empty entry_size evict_until_fits
state_stored = refl

load_state-store_state_example :
    (m : CacheManager) × (load_state tokens none writes k after_store [] ≡ (true, m, 5 ∷ 6 ∷ []))
    × (m.stats.hits ≡ 1)
    × (m.stats.misses ≡ 0)
load_state-store_state_example =
    load_state-store_state tokens none writes k (5 ∷ 6 ∷ []) [] (5 ∷ 6 ∷ []) 2 fresh_manager
      after_store tt (omega arith) (omega arith) state_stored refl

-- An envelope with a wrong checksum.
abbrev junk : Bytes
junk = codes "SVK1" ++ (u64_bytes 0 ++ (u32_bytes 1 ++ codes "x"))

abbrev with_junk : CacheManager
with_junk = record {
  store = (put writes k junk (empty 0)).1;
  compressed = true;
  stats = record { hits = 0; misses = 0; stores = 1 };
}

junk-put : put writes k junk (empty 0) ≡ (true, (put writes k junk (empty 0)).1)
unfolding put entry_size empty evict_until_fits
junk-put = refl

junk_read : (get k with_junk.store).0 ≡ some junk
junk_read = get-put writes k junk (empty 0) with_junk.store (omega arith) junk-put

junk-Spoilt : Spoilt junk
unfolding checksum u64_bytes u32_bytes
junk-Spoilt =
    other_checksum 0 1 (codes "x") refl (omega arith) (omega arith) (λ e. ground (arith, e))

load_state_damaged_example :
    (m : CacheManager) × (load_state tokens none writes k with_junk [] ≡ (false, m, []))
    × (lookup k m.store.entries ≡ none)
    × (m.stats.misses ≡ 1)
    × (m.stats.hits ≡ 0)
load_state_damaged_example =
    load_state_damaged tokens none writes k junk with_junk [] junk_read junk-Spoilt

-- A cache that never holds anything.
abbrev pub no_snapshots : Snapshots tokens
no_snapshots = record {
  Cache = Unit;
  load = λ key c s. (false, c, s);
  save = λ key s n c. ok (true, c);
}

abbrev pub no_snapshots-IsSnapshots : IsSnapshots tokens Holds no_snapshots (codes "m")
no_snapshots-IsSnapshots = record {
  Good = λ prefix c. Unit;
  load_hit =
      λ prefix n c c' st st' h e. absurd (let f : false ≡ true = ap (λ r. r.0) e in ground arith);
  load_good = λ prefix key c st h. tt;
  save_good = λ prefix n c c' st saved under short h held e. tt;
}

-- A codec that leaves its input as it is.
abbrev pub plain_zstd : Zstd
plain_zstd = record { compress = λ s. some s; decompress = λ s. some s }

abbrev pub managed : Snapshots tokens
managed = manager_snapshots tokens plain_zstd writes

pub plain_zstd-RoundTrips : RoundTrips (some plain_zstd)
plain_zstd-RoundTrips blob frame e = ap some (ground (arith, e))

abbrev pub managed-IsSnapshots : IsSnapshots tokens Holds managed (codes "m")
managed-IsSnapshots =
    manager_snapshots-IsSnapshots tokens Holds tokens-IsBackend plain_zstd writes (codes "m")
      plain_zstd-RoundTrips

abbrev pub prompt : List ℕ
prompt = 4 ∷ 5 ∷ 6 ∷ []

abbrev pub front_key : Bytes
front_key = key_for (codes "m") prompt 2

-- A manager that holds a snapshot of the first two tokens.
abbrev pub warm : CacheManager
warm = record {
  store = (put writes front_key (envelope (flag_zstd ∷ 4 ∷ 5 ∷ []) 2) fresh_manager.store).1;
  compressed = true;
  stats = record { hits = 0; misses = 0; stores = 1 };
}

warm_stored :
    store_state tokens (some plain_zstd) writes front_key (4 ∷ 5 ∷ []) 2 fresh_manager
    ≡ ok (true, warm)
unfolding store_state pack compress put empty entry_size evict_until_fits
warm_stored = refl

-- It answers, so a prefill of the prompt starts from it.
warm_hits :
    (m : CacheManager) × (load_state tokens (some plain_zstd) writes front_key warm []
      ≡ (true, m, 4 ∷ 5 ∷ []))
    × (m.stats.hits ≡ 1)
    × (m.stats.misses ≡ 0)
warm_hits =
    load_state-store_state tokens (some plain_zstd) writes front_key (4 ∷ 5 ∷ []) [] (4 ∷ 5 ∷ []) 2
      fresh_manager warm plain_zstd-RoundTrips (key_for-IsU32 (codes "m") prompt 2 (omega arith))
      (omega arith) warm_stored refl

fresh_good : managed-IsSnapshots.Good prompt fresh_manager
unfolding get empty lookup
fresh_good n entry found =
    let missed : (get (key_for (codes "m") prompt n) fresh_manager.store).0 ≡ none = refl in
    absurd (let k : none ≡ some entry = sym missed ∙ found in ground arith)

pub warm_good : managed-IsSnapshots.Good prompt warm
warm_good =
    managed-IsSnapshots.save_good prompt 2 fresh_manager warm (4 ∷ 5 ∷ []) true (omega arith)
      (omega arith) fresh_good refl warm_stored
