-- ===== src/Words.antt =====
-- Little-endian words, as the source packs them into byte vectors, and FNV-1a.
use Prim.Native.Nat.{bit_xor}
use sovranx.Prelude.{
  ℕ, ◌+◌, ◌*◌, ◌/◌, ◌%◌, ◌^◌, ◌<◌, ◌≡◌, refl, ap, [], ◌∷◌, ◌++◌, Option, none, some, Bytes, arith,
}

abbrev pub IsU32 : ℕ → Type 0
IsU32 v = v < 2 ^ 32

abbrev pub IsU64 : ℕ → Type 0
IsU64 v = v < 2 ^ 64

-- (v >> (8 * i)) & 0xFF
abbrev byte_at : ℕ → ℕ → ℕ
byte_at v i = v / 2 ^ (8 * i) % 256

-- append_u32 and append_u64 of src/cache/cache_manager.cpp: the loop over the bytes, unrolled.
unfoldable pub u32_bytes : ℕ → Bytes
u32_bytes v = byte_at v 0 ∷ byte_at v 1 ∷ byte_at v 2 ∷ byte_at v 3 ∷ []

unfoldable pub u64_bytes : ℕ → Bytes
u64_bytes v =
    byte_at v 0
    ∷ byte_at v 1
    ∷ byte_at v 2
    ∷ byte_at v 3
    ∷ byte_at v 4
    ∷ byte_at v 5
    ∷ byte_at v 6
    ∷ byte_at v 7
    ∷ []

-- read_u32 and read_u64: v = (v << 8) | p[i], from the last byte to the first.
abbrev shl8_or : ℕ → ℕ → ℕ
shl8_or v b = v * 256 + b

unfoldable pub read_u32 : Bytes → Option (ℕ × Bytes)
read_u32 (a ∷ b ∷ c ∷ d ∷ s) = some (shl8_or (shl8_or (shl8_or d c) b) a, s)
read_u32 s = none

unfoldable pub read_u64 : Bytes → Option (ℕ × Bytes)
read_u64 (a ∷ b ∷ c ∷ d ∷ e ∷ f ∷ g ∷ h ∷ s) =
    some (shl8_or (shl8_or (shl8_or (shl8_or (shl8_or (shl8_or (shl8_or h g) f) e) d) c) b) a, s)
read_u64 s = none

byte_digits32 :
    (v : ℕ)
    → IsU32 v
    → shl8_or (shl8_or (shl8_or (byte_at v 3) (byte_at v 2)) (byte_at v 1)) (byte_at v 0) ≡ v
byte_digits32 v h = omega arith

byte_digits64 :
    (v : ℕ)
    → IsU64 v
    → shl8_or
        (shl8_or
          (shl8_or
            (shl8_or
              (shl8_or (shl8_or (shl8_or (byte_at v 7) (byte_at v 6)) (byte_at v 5)) (byte_at v 4))
              (byte_at v 3))
            (byte_at v 2))
          (byte_at v 1))
        (byte_at v 0)
      ≡ v
byte_digits64 v h = omega arith

pub read_u32-u32_bytes : (v : ℕ) (s : Bytes) → IsU32 v → read_u32 (u32_bytes v ++ s) ≡ some (v, s)
unfolding read_u32 u32_bytes
read_u32-u32_bytes v s h = ap (λ x. some (x, s)) (byte_digits32 v h)

pub read_u64-u64_bytes : (v : ℕ) (s : Bytes) → IsU64 v → read_u64 (u64_bytes v ++ s) ≡ some (v, s)
unfolding read_u64 u64_bytes
read_u64-u64_bytes v s h = ap (λ x. some (x, s)) (byte_digits64 v h)

-- KVCacheSerializer::checksum of src/cache/cache_serializer.cpp: FNV-1a on 64 bits.
unfoldable pub checksum_from : ℕ → Bytes → ℕ
checksum_from hash [] = hash
checksum_from hash (c ∷ s) = checksum_from (bit_xor hash c * 0x100000001b3 % 2 ^ 64) s

unfoldable pub checksum : Bytes → ℕ
unfolding checksum_from
checksum s = checksum_from 0xcbf29ce484222325 s

checksum_from-IsU64 : (s : Bytes) (hash : ℕ) → IsU64 hash → IsU64 (checksum_from hash s)
unfolding checksum_from
checksum_from-IsU64 [] hash h = h
checksum_from-IsU64 (c ∷ s) hash h = checksum_from-IsU64 s _ (omega arith)

pub checksum-IsU64 : (s : Bytes) → IsU64 (checksum s)
unfolding checksum
checksum-IsU64 s = checksum_from-IsU64 s _ (omega arith)

-- The checksum of two parts in a row goes on from that of the first.
pub checksum_from-append :
    (s t : Bytes) (hash : ℕ) → checksum_from hash (s ++ t) ≡ checksum_from (checksum_from hash s) t
unfolding checksum_from
checksum_from-append [] t hash = refl
checksum_from-append (c ∷ s) t hash = checksum_from-append s t _
