-- ===== src/Cache/Manager.antt =====
-- The snapshot envelope, src/cache/cache_manager.cpp over src/cache/cache_serializer.cpp: a KV-cache
-- blob is packed, checksummed and kept in the store. zstd is a parameter; `none` is a build without it.
pub mod Loads
use sovranx.Backend.{Backend}
use sovranx.Cache.Store.{Store, put, get, remove}
use sovranx.Decimal.{to_string}
use sovranx.Prelude.{
  ℕ, suc, ◌+◌, ◌%◌, ◌^◌, ◌≡◌, Bool, true, false, not, ◌||◌, List, [], ◌∷◌, ◌++◌, Option, none, some,
  Bytes, codes, Outcome, ok, throw, ◌>>=◌, length, take, drop, ltb, ◌==◌, ◌===◌, if◌then◌else◌,
}
use sovranx.Words.{u32_bytes, u64_bytes, read_u32, read_u64, checksum}

-- CacheError, by the place that throws it.
pub data CacheError : Type 0 where
  compression_failed empty_envelope corrupt_frame no_zstd unknown_flag : CacheError

-- ZSTD_compress, and ZSTD_decompress after ZSTD_getFrameContentSize; `none` is any error.
pub record Zstd : Type 0 where
  pub compress : Bytes → Option Bytes
  pub decompress : Bytes → Option Bytes

abbrev pub flag_zstd : ℕ
flag_zstd = b'Z'

abbrev pub flag_raw : ℕ
flag_raw = b'R'

-- KVCacheSerializer::compress.
unfoldable pub compress : Option Zstd → Bytes → Outcome CacheError Bytes
compress none blob = ok (flag_raw ∷ blob)
compress (some z) blob = elim (z.compress blob) [
  | none ↦ throw compression_failed
  | some frame ↦ ok (flag_zstd ∷ frame)
]

decompress_zstd : Option Zstd → Bytes → Outcome CacheError Bytes
decompress_zstd none frame = throw no_zstd
decompress_zstd (some z) frame = elim (z.decompress frame) [
  | none ↦ throw corrupt_frame
  | some blob ↦ ok blob
]

-- KVCacheSerializer::decompress.
unfoldable pub decompress : Option Zstd → Bytes → Outcome CacheError Bytes
unfolding decompress_zstd
decompress codec [] = throw empty_envelope
decompress codec (flag ∷ rest) =
    if flag == flag_raw
    then ok rest
    else if flag == flag_zstd
    then decompress_zstd codec rest
    else throw unknown_flag

pub record CacheStats : Type 0 where
  pub hits : ℕ
  pub misses : ℕ
  pub stores : ℕ

pub record CacheManager : Type 0 where
  pub store : Store
  pub compressed : Bool
  pub stats : CacheStats

-- kMagic and kEnvelopeHeader.
abbrev pub magic : Bytes
magic = codes "SVK1"

abbrev pub envelope_header : ℕ
envelope_header = 4 + 8 + 4

unfoldable pub envelope : Bytes → ℕ → Bytes
envelope packed n_past =
    magic ++ (u64_bytes (checksum packed) ++ (u32_bytes (n_past % 2 ^ 32) ++ packed))

-- checksum(packed) != expected.
check_sum : ℕ → Option (ℕ × Bytes) → Option (ℕ × Bytes)
check_sum expected none = none
check_sum expected (some (n_past, packed)) =
    if checksum packed == expected then some (n_past, packed) else none

read_fields : Option (ℕ × Bytes) → Option (ℕ × Bytes)
unfolding check_sum
read_fields none = none
read_fields (some (expected, r)) = check_sum expected (read_u32 r)

-- The tests of load_state on an entry: the magic, and the checksum of what follows the header.
unfoldable pub open_envelope : Bytes → Option (ℕ × Bytes)
unfolding read_fields
open_envelope entry =
    if ltb (length entry) envelope_header || not (take 4 entry === magic)
    then none
    else read_fields (read_u64 (drop 4 entry))

-- CacheManager::make_key, and PrefixCache::key_for with another front: the tokens as little-endian
-- words behind the model's tag.
pub token_bytes : List ℕ → Bytes
token_bytes [] = []
token_bytes (t ∷ ts) = u32_bytes (t % 2 ^ 32) ++ token_bytes ts

unfoldable pub key_with : Bytes → Bytes → List ℕ → Bytes
unfolding token_bytes
key_with front tag tokens =
    let raw = tag ++ (0 ∷ token_bytes tokens) in
    front
    ++ (to_string (checksum raw)
        ++ (b'-'
            ∷ (to_string (checksum (raw ++ (b'x' ∷ [])))
                ++ (codes "-n" ++ to_string (length tokens)))))

unfoldable pub make_key : Bytes → List ℕ → Bytes
make_key tag tokens = key_with (codes "kv-") tag tokens

module _ (b : Backend) (codec : Option Zstd) (accepts : Bytes → Bytes → Bool) where
  unfoldable pub pack : Bool → Bytes → Outcome CacheError Bytes
  pack true raw = compress codec raw
  pack false raw = ok (flag_raw ∷ raw)

  -- CacheManager::store_state.
  unfoldable pub store_state :
      Bytes → b.State → ℕ → CacheManager → Outcome CacheError (Bool × CacheManager)
  unfolding pack
  store_state key st n_past m = pack m.compressed (b.state_data st) >>= λ packed.
      let (done, s) = put accepts key (envelope packed n_past) m.store in
      let stats = m.stats in
      ok (
        if done
        then (true, record m { store = s; stats = record stats { stores = stats.stores + 1 } })
        else (false, record m { store = s }))

  unfoldable pub miss : Store → CacheManager → CacheManager
  miss s m =
      let stats = m.stats in
      record m { store = s; stats = record stats { misses = stats.misses + 1 } }

  unfoldable pub hit : Store → CacheManager → CacheManager
  hit s m =
      let stats = m.stats in record m { store = s; stats = record stats { hits = stats.hits + 1 } }

  -- deserialize(decompress(packed)) under the catch.
  unfoldable pub restore : Bytes → ℕ → b.State → Bool × b.State
  restore packed n_past st = elim (decompress codec packed) [
    | throw e ↦ (false, st)
    | ok blob ↦ elim (b.set_state blob n_past st) [
      | ok st' ↦ (true, st')
      | throw st' ↦ (false, st')
    ]
  ]

  -- load_state once the entry is read.
  unfoldable pub load_entry :
      Bytes → Bytes → Store → CacheManager → b.State → Bool × CacheManager × b.State
  unfolding miss hit restore
  load_entry key entry s m st = elim (open_envelope entry) [
    | none ↦ (false, miss (remove key s).1 m, st)
    | some (n_past, packed) ↦
        let (restored, st') = restore packed n_past st in
        if restored then (true, hit s m, st') else (false, miss (remove key s).1 m, st')
  ]

  -- CacheManager::load_state.
  unfoldable pub load_state : Bytes → CacheManager → b.State → Bool × CacheManager × b.State
  unfolding load_entry
  load_state key m st =
      let (found, s) = get key m.store in
      elim found [ none ↦ (false, miss s m, st) | some entry ↦ load_entry key entry s m st ]
