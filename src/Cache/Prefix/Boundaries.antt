-- ===== src/Cache/Prefix/Boundaries.antt =====
-- The snapshot positions of a prompt.
use sovranx.Cache.Prefix.{boundaries_loop, boundaries}
use sovranx.Prelude.{
  ℕ, zero, suc, ◌+◌, ◌%◌, ◌^◌, ◌≤◌, ◌<◌, ◌≡◌, refl, subst, inl, inr, Bool-cases, true, List, [],
  ◌∷◌, ◌++◌, ltb, arith,
}

-- From `lo` up to `size` in steps of one to `block` positions.
abbrev pub Climbs : ℕ → ℕ → List ℕ → ℕ → Type 0
Climbs block lo [] size = lo ≡ size
Climbs block lo (mark ∷ marks) size =
    (lo < mark) × (mark ≤ lo + block) × Climbs block mark marks size

boundaries_loop-Climbs :
    (fuel block lo size : ℕ)
    → 0 < block
    → lo < size
    → size ≤ lo + fuel
    → size + block ≤ 2 ^ 32
    → Climbs block lo (boundaries_loop fuel block (lo + block) size ++ (size ∷ [])) size
unfolding boundaries_loop
boundaries_loop-Climbs zero block lo size p h k w = absurd (omega arith)
boundaries_loop-Climbs (suc fuel) block lo size p h k w =
    elim (Bool-cases (ltb (lo + block) size)) [
      | inl more ↦
          let below : lo + block < size = ground arith in
          let next : (lo + block + block) % 2 ^ 32 ≡ lo + block + block = omega arith in
          rw more (
            omega arith,
            omega arith,
            rw next (boundaries_loop-Climbs fuel block (lo + block) size p below (omega arith) w),
          )
      | inr last ↦ rw last (h, ground arith, refl)
    ]

-- The boundaries of a prompt climb from 0 to its length, and no two are further apart than a block.
-- The prompt and a block together fit 32-bit positions.
pub boundaries-Climbs :
    (block size : ℕ)
    → 0 < block
    → 0 < size
    → size + block ≤ 2 ^ 32
    → Climbs block 0 (boundaries block size) size
unfolding boundaries
boundaries-Climbs block size p h w =
    let wrap : size % 2 ^ 32 ≡ size = omega arith in
    let some_tokens : ltb 0 size ≡ true = ground arith in
    let zero_block : 0 + block ≡ block = omega arith in
    let climbs =
      subst (λ m. Climbs block 0 (boundaries_loop size block m size ++ (size ∷ [])) size) zero_block
        (boundaries_loop-Climbs size block 0 size p h (omega arith) w) in
    rw (some_tokens, wrap) climbs
