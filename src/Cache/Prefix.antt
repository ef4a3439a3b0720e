-- ===== src/Cache/Prefix.antt =====
-- The shared-prefix cache, src/cache/prefix_cache.cpp: a prompt is prefilled from the longest snapshot
-- of one of its block boundaries. `Snapshots` is what it uses of the CacheManager.
pub mod Boundaries
pub mod Prefill
pub mod Managed
use sovranx.Backend.{Backend}
use sovranx.Cache.Manager.{CacheError, CacheManager, Zstd, key_with, load_state, store_state}
use sovranx.Prelude.{
  ℕ, zero, suc, Option, some, ◌+◌, ◌-◌, ◌%◌, ◌^◌, Bool, true, false, List, [], ◌∷◌, ◌++◌, Bytes,
  codes, Outcome, ok, throw, ◌>>=◌, length, take, drop, max, ltb, leb, ◌==◌, if◌then◌else◌,
}
use mathlib.Core.List.{reverse}

-- load_state and store_state of a CacheManager.
pub record Snapshots (b : Backend) : Type 1 where
  pub Cache : Type 0
  pub load : Bytes → Cache → b.State → Bool × Cache × b.State
  pub save : Bytes → b.State → ℕ → Cache → Outcome CacheError (Bool × Cache)

-- The CacheManager as the source passes it.
abbrev pub manager_snapshots : (b : Backend) → Zstd → (Bytes → Bytes → Bool) → Snapshots b
manager_snapshots b z accepts = record {
  Cache = CacheManager;
  load = load_state b (some z) accepts;
  save = store_state b (some z) accepts;
}

-- for (b = block_tokens_; b < size; b += block_tokens_), on 32-bit positions. Positions grow until
-- they wrap, so `size` rounds are enough below the wrap.
unfoldable pub boundaries_loop : ℕ → ℕ → ℕ → ℕ → List ℕ
boundaries_loop zero block mark size = []
boundaries_loop (suc fuel) block mark size =
    let rest = boundaries_loop fuel block ((mark + block) % 2 ^ 32) size in
    if ltb mark size then mark ∷ rest else []

-- The constructor's std::max(block_tokens, 1).
abbrev pub block_of : ℕ → ℕ
block_of block_tokens = max block_tokens 1

unfoldable pub boundaries : ℕ → ℕ → List ℕ
unfolding boundaries_loop
boundaries block size =
    boundaries_loop size block block size ++ (if ltb 0 size then (size % 2 ^ 32) ∷ [] else [])

-- The key of the first n tokens.
pub key_for : Bytes → List ℕ → ℕ → Bytes
key_for tag prefix n = key_with (codes "pfx-") tag (take n prefix)

-- Tokens from position `from` up to position `to`.
abbrev pub slice : ℕ → ℕ → List ℕ → List ℕ
slice from to tokens = take (to - from) (drop from tokens)

-- What prefill can throw.
pub data PrefillError (E : Type 0) : Type 0 where
  decode_failed : E → PrefillError E
  cache_failed : CacheError → PrefillError E

abbrev pub lift {ℓ κ μ} :
    {E : Type ℓ} {F : Type κ} {A : Type μ} → (E → F) → Outcome E A → Outcome F A
lift f (ok a) = ok a
lift f (throw e) = throw (f e)

module _ (b : Backend) (snaps : Snapshots b) (tag : Bytes) (block : ℕ) where
  -- The loop from the longest boundary down: the boundary restored, or 0.
  unfoldable pub restore_longest :
      List ℕ → List ℕ → snaps.Cache → b.State → ℕ × snaps.Cache × b.State
  restore_longest prefix [] c st = (0, c, st)
  restore_longest prefix (mark ∷ marks) c st =
      let (hit, c', st') = snaps.load (key_for tag prefix mark) c st in
      let rest = restore_longest prefix marks c' st' in if hit then (mark, c', st') else rest

  -- The loop that decodes the remainder block by block.
  unfoldable pub decode_marks :
      List ℕ
      → ℕ
      → ℕ
      → List ℕ
      → snaps.Cache
      → b.State
      → Outcome (PrefillError b.Error) (snaps.Cache × b.State)
  decode_marks prefix restored pos [] c st = ok (c, st)
  decode_marks prefix restored pos (mark ∷ marks) c st =
      let skip = decode_marks prefix restored pos marks c st in
      if leb mark restored
      then skip
      else (lift decode_failed (b.decode_append (slice pos mark prefix) st) >>= λ (_, st').
          lift cache_failed (snaps.save (key_for tag prefix mark) st' mark c) >>= λ (_, c').
          decode_marks prefix restored mark marks c' st')

  -- PrefixCache::prefill.
  unfoldable pub prefill :
      List ℕ → snaps.Cache → b.State → Outcome (PrefillError b.Error) (ℕ × snaps.Cache × b.State)
  unfolding restore_longest decode_marks
  prefill [] c st = ok (0, c, b.reset st)
  prefill (t ∷ ts) c st =
      let prefix = t ∷ ts in
      let marks = boundaries block (length prefix) in
      let (restored, c', st') = restore_longest prefix (reverse marks) c st in
      let st'' = if restored == 0 then b.reset st' else st' in
      decode_marks prefix restored restored marks c' st'' >>= λ (c'', s). ok (restored, c'', s)
