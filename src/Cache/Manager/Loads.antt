-- ===== src/Cache/Manager/Loads.antt =====
-- What a snapshot is worth: a stored one comes back whole, a damaged one is dropped.
use sovranx.Backend.{Backend}
use sovranx.Cache.Manager.{
  Zstd, compress, decompress, flag_raw, flag_zstd, CacheManager, magic, envelope_header, envelope,
  read_fields, open_envelope, pack, store_state, miss, hit, restore, load_entry, load_state,
}
use sovranx.Cache.Store.{put, get, remove}
use sovranx.Cache.Store.Invariant.{remove-entries}
use sovranx.Cache.Store.Reads.{get-put}
use sovranx.Dict.{lookup, lookup-erase_self}
use sovranx.Prelude.{
  ℕ, ◌+◌, ◌%◌, ◌^◌, ◌≡◌, ◌≢◌, ◌<◌, ◌==◌, ap, Bool-cases, ===_iff, codes, refl, subst, ◌∙◌, inl, inr,
  Bool, true, false, not, ◌||◌, ◌∷◌, ◌++◌, Option, none, some, Option-cases, Bytes, Outcome-cases,
  ok, length, take, drop, ltb, ◌===◌, if◌then◌else◌, arith,
}
use sovranx.Words.{
  IsU32, IsU64, u32_bytes, u64_bytes, read_u64, checksum, checksum-IsU64, read_u32-u32_bytes,
  read_u64-u64_bytes,
}

-- What zstd documents: a frame decompresses to what was compressed.
abbrev pub RoundTrips : Option Zstd → Type 0
RoundTrips none = Unit {0}
RoundTrips (some z) =
    (blob frame : Bytes) → z.compress blob ≡ some frame → z.decompress frame ≡ some blob

length-envelope : (packed : Bytes) (n : ℕ) → length (envelope packed n) ≡ 16 + length packed
unfolding envelope u64_bytes u32_bytes
length-envelope packed n = omega arith

open_envelope_step :
    (entry : Bytes)
    → (ltb (length entry) envelope_header || not (take 4 entry === magic)) ≡ false
    → open_envelope entry ≡ read_fields (read_u64 (drop 4 entry))
unfolding open_envelope
open_envelope_step entry h = rw h

envelope_passes :
    (packed : Bytes) (n : ℕ)
    → (ltb (length (envelope packed n)) envelope_header
        || not (take 4 (envelope packed n) === magic))
      ≡ false
unfolding envelope ◌===◌
envelope_passes packed n = ground (arith, length-envelope packed n)

envelope_fields :
    (packed : Bytes) (n : ℕ)
    → IsU32 n
    → read_fields (read_u64 (drop 4 (envelope packed n))) ≡ some (n, packed)
unfolding envelope read_fields
envelope_fields packed n h =
    let small : n % 2 ^ 32 ≡ n = omega arith in
    rw
      (
        small,
        read_u64-u64_bytes (checksum packed) (u32_bytes n ++ packed) (checksum-IsU64 packed),
        read_fields,
        read_u32-u32_bytes n packed h,
      )
      (ground arith)

-- The envelope of a packed blob is opened to the blob.
pub open_envelope-envelope :
    (packed : Bytes) (n : ℕ) → IsU32 n → open_envelope (envelope packed n) ≡ some (n, packed)
open_envelope-envelope packed n h =
    open_envelope_step _ (envelope_passes packed n) ∙ envelope_fields packed n h

-- What can be wrong with an entry: it is shorter than an envelope's header, it does not start with the
-- magic, or its checksum is not that of its packed state.
pub data Spoilt (entry : Bytes) : Type 0 where
  too_short : length entry < 16 → Spoilt entry
  other_magic : take 4 entry ≢ codes "SVK1" → Spoilt entry
  other_checksum :
      (expected n : ℕ) (packed : Bytes)
      → entry ≡ codes "SVK1" ++ (u64_bytes expected ++ (u32_bytes n ++ packed))
      → IsU64 expected
      → IsU32 n
      → checksum packed ≢ expected
      → Spoilt entry

===_false : (s t : Bytes) → s ≢ t → (s === t) ≡ false
===_false s t h = elim (Bool-cases (s === t)) [
  | inl same ↦ absurd (h ((===_iff s t).0 same))
  | inr other ↦ other
]

checksum_fails :
    (expected n : ℕ) (packed : Bytes)
    → IsU64 expected
    → IsU32 n
    → checksum packed ≢ expected
    → read_fields (read_u64 (u64_bytes expected ++ (u32_bytes n ++ packed))) ≡ none
unfolding read_fields
checksum_fails expected n packed h k other =
    let fails : (checksum packed == expected) ≡ false = ground arith in
    rw
      (
        read_u64-u64_bytes expected (u32_bytes n ++ packed) h,
        read_fields,
        read_u32-u32_bytes n packed k,
      )
      (rw fails refl)

open_envelope-Spoilt : (entry : Bytes) → Spoilt entry → open_envelope entry ≡ none
unfolding open_envelope
open_envelope-Spoilt entry (too_short h) =
    let short : ltb (length entry) envelope_header ≡ true = ground arith in rw short refl
open_envelope-Spoilt entry (other_magic h) =
    elim (Bool-cases (ltb (length entry) envelope_header)) [
      | inl short ↦ rw short refl
      | inr enough ↦ rw (enough, ===_false (take 4 entry) magic h) refl
    ]
open_envelope-Spoilt entry (other_checksum expected n packed e h k other) =
    elim (Bool-cases (ltb (length entry) envelope_header || not (take 4 entry === magic))) [
      | inl refused ↦ rw refused refl
      | inr passed ↦
          open_envelope_step entry passed
          ∙ ap (λ x. read_fields (read_u64 (drop 4 x))) e
          ∙ checksum_fails expected n packed h k other
    ]

decompress-compress :
    (codec : Option Zstd) (blob packed : Bytes)
    → RoundTrips codec
    → compress codec blob ≡ ok packed
    → decompress codec packed ≡ ok blob
unfolding compress decompress
decompress-compress none blob packed law h =
    let raw : flag_raw ∷ blob ≡ packed = cc in subst (λ p. decompress none p ≡ ok blob) raw refl
decompress-compress (some z) blob packed law h = elim (Option-cases (z.compress blob)) [
  | inl e ↦ ground (arith, e)
  | inr (frame, e) ↦
      let shape : flag_zstd ∷ frame ≡ packed = ground (arith, e) in
      subst (λ p. decompress (some z) p ≡ ok blob) shape (ground (arith, law blob frame e))
]

module _ (b : Backend) (codec : Option Zstd) (accepts : Bytes → Bytes → Bool) where
  pub pack-decompress :
      (flag : Bool) (raw packed : Bytes)
      → RoundTrips codec
      → pack b codec accepts flag raw ≡ ok packed
      → decompress codec packed ≡ ok raw
  unfolding pack
  pack-decompress true raw packed law h = decompress-compress codec raw packed law h
  pack-decompress false raw packed law h =
      let shape : flag_raw ∷ raw ≡ packed = cc in
      subst (λ p. decompress codec p ≡ ok raw) shape (unfold decompress in refl)

  -- A store_state that reported success has put the envelope of the packed state.
  store_state_stored :
      (key : Bytes) (st : b.State) (n : ℕ) (m m' : CacheManager)
      → store_state b codec accepts key st n m ≡ ok (true, m')
      → (packed : Bytes) × (pack b codec accepts m.compressed (b.state_data st) ≡ ok packed)
        × (put accepts key (envelope packed n) m.store ≡ (true, m'.store))
        × (m'.stats.stores ≡ m.stats.stores + 1)
  unfolding store_state
  store_state_stored key st n m m' h =
      elim (Outcome-cases (pack b codec accepts m.compressed (b.state_data st))) [
        | inl (packed, e) ↦ (packed, e, ground (arith, e), ground (arith, e))
        | inr (x, e) ↦ ground (arith, e)
      ]

  load_state_found :
      (key entry packed blob : Bytes) (n : ℕ) (m : CacheManager) (st st' : b.State)
      → (get key m.store).0 ≡ some entry
      → open_envelope entry ≡ some (n, packed)
      → decompress codec packed ≡ ok blob
      → b.set_state blob n st ≡ ok st'
      → load_state b codec accepts key m st ≡ (true, hit b codec accepts (get key m.store).1 m, st')
  unfolding load_state load_entry restore
  load_state_found key entry packed blob n m st st' g o d r =
      rw (g, load_state) (rw (o, load_entry) (rw (d, restore) (rw r)))

  -- A snapshot that store_state reported as stored is restored by a load_state under its key: the
  -- backend is given exactly the state data that was saved, with its number of positions, and the load
  -- counts as a hit. zstd, if it is built in, gives back what it compressed; the key is shorter than
  -- 4 GB, the positions fit 32 bits, and the backend takes the state back.
  pub load_state-store_state :
      (key : Bytes) (st t t' : b.State) (n : ℕ) (m m' : CacheManager)
      → RoundTrips codec
      → IsU32 (length key)
      → IsU32 n
      → store_state b codec accepts key st n m ≡ ok (true, m')
      → b.set_state (b.state_data st) n t ≡ ok t'
      → (m'' : CacheManager) × (load_state b codec accepts key m' t ≡ (true, m'', t'))
        × (m''.stats.hits ≡ m'.stats.hits + 1)
        × (m''.stats.misses ≡ m'.stats.misses)
  unfolding hit
  load_state-store_state key st t t' n m m' law hk hn stored taken =
      let (packed, packs, puts, _) = store_state_stored key st n m m' stored in
      (
        hit b codec accepts (get key m'.store).1 m',
        load_state_found key (envelope packed n) packed (b.state_data st) n m' t t'
            (get-put accepts key (envelope packed n) m.store m'.store hk puts)
            (open_envelope-envelope packed n hn)
            (pack-decompress m.compressed (b.state_data st) packed law packs) taken,
        refl,
        refl,
      )

  -- An entry that is shorter than 16 bytes, does not start with SVK1, or has another checksum than that
  -- of its packed state, is not restored: the backend is left as it was, the key is removed, and the
  -- load counts as a miss.
  pub load_state_damaged :
      (key entry : Bytes) (m : CacheManager) (st : b.State)
      → (get key m.store).0 ≡ some entry
      → Spoilt entry
      → (m' : CacheManager) × (load_state b codec accepts key m st ≡ (false, m', st))
        × (lookup key m'.store.entries ≡ none)
        × (m'.stats.misses ≡ m.stats.misses + 1)
        × (m'.stats.hits ≡ m.stats.hits)
  unfolding load_state load_entry miss
  load_state_damaged key entry m st g damaged = (
    miss b codec accepts (remove key (get key m.store).1).1 m,
    rw (g, load_state) (rw (open_envelope-Spoilt entry damaged, load_entry)),
    rw (remove-entries key (get key m.store).1, lookup-erase_self key (get key m.store).1.entries),
    refl,
    refl,
  )

  -- Every load is counted once: a restored snapshot as a hit, any other outcome as a miss, and no load
  -- counts as a store.
  pub load_state_counts :
      (key : Bytes) (m : CacheManager) (st : b.State)
      → let r = load_state b codec accepts key m st in
        (r.1.stats.hits ≡ (if r.0 then m.stats.hits + 1 else m.stats.hits))
        × (r.1.stats.misses ≡ (if r.0 then m.stats.misses else m.stats.misses + 1))
        × (r.1.stats.stores ≡ m.stats.stores)
  unfolding load_state load_entry miss hit restore
  load_state_counts key m st = ground arith
