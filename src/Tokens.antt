-- ===== src/Tokens.antt =====
-- Token ids as bytes: pack_tokens and unpack_tokens of src/arca/archive.cpp, and the raw reads and writes
-- of token vectors in src/palimpsest/corpus_index.cpp. A token id is its 32-bit pattern.
use sovranx.Prelude.{
  ℕ, zero, suc, ◌+◌, ◌*◌, ◌%◌, ◌≡◌, refl, ap, ap₂, true, Option, none, some, List, [], ◌∷◌, ◌++◌,
  Bytes, All, length, ◌==◌, if◌then◌else◌, arith,
}
use sovranx.Words.{IsU32, u32_bytes}

unfoldable pub pack_tokens : List ℕ → Bytes
pack_tokens [] = []
pack_tokens (t ∷ ts) = u32_bytes t ++ pack_tokens ts

-- Four bytes as a word.
abbrev word : ℕ → ℕ → ℕ → ℕ → ℕ
word a b c d = a + 256 * b + 65536 * c + 16777216 * d

unfoldable after_token : ℕ → Option (List ℕ × Bytes) → Option (List ℕ × Bytes)
after_token t none = none
after_token t (some (ts, s)) = some (t ∷ ts, s)

-- The first n words, and the bytes after them.
unfoldable pub read_tokens : ℕ → Bytes → Option (List ℕ × Bytes)
unfolding after_token
read_tokens zero s = some ([], s)
read_tokens (suc n) (a ∷ b ∷ c ∷ d ∷ s) = after_token (word a b c d) (read_tokens n s)
read_tokens (suc n) s = none

-- unpack_tokens refuses a payload that is not a whole number of words; the loop then reads them all.
unfoldable pub unpack_loop : Bytes → List ℕ
unpack_loop (a ∷ b ∷ c ∷ d ∷ s) = word a b c d ∷ unpack_loop s
unpack_loop s = []

unfoldable pub unpack_tokens : Bytes → Option (List ℕ)
unpack_tokens s = if length s % 4 == 0 then some (unpack_loop s) else none

pub read_tokens-pack_tokens :
    (ts : List ℕ) (rest : Bytes)
    → All IsU32 ts
    → read_tokens (length ts) (pack_tokens ts ++ rest) ≡ some (ts, rest)
unfolding read_tokens pack_tokens u32_bytes after_token
read_tokens-pack_tokens [] rest h = refl
read_tokens-pack_tokens (t ∷ ts) rest (h, hs) =
    rw (read_tokens-pack_tokens ts rest hs, after_token)
      (ap (λ w. some (w ∷ ts, rest)) (omega arith))

pub length-pack_tokens : (ts : List ℕ) → length (pack_tokens ts) ≡ 4 * length ts
unfolding pack_tokens u32_bytes
length-pack_tokens [] = omega arith
length-pack_tokens (t ∷ ts) = omega (arith, length-pack_tokens ts)

unpack_loop-pack_tokens : (ts : List ℕ) → All IsU32 ts → unpack_loop (pack_tokens ts) ≡ ts
unfolding unpack_loop pack_tokens u32_bytes
unpack_loop-pack_tokens [] h = refl
unpack_loop-pack_tokens (t ∷ ts) (h, hs) = ap₂ ◌∷◌ (omega arith) (unpack_loop-pack_tokens ts hs)

-- What is packed is unpacked as it was, for token ids of 32 bits.
pub unpack_tokens-pack_tokens :
    (ts : List ℕ) → All IsU32 ts → unpack_tokens (pack_tokens ts) ≡ some ts
unfolding unpack_tokens
unpack_tokens-pack_tokens ts h =
    let whole : (length (pack_tokens ts) % 4 == 0) ≡ true =
      rw (length-pack_tokens ts) (ground arith) in
    rw whole (ap some (unpack_loop-pack_tokens ts h))
