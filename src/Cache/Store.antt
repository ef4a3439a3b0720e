-- ===== src/Cache/Store.antt =====
-- The LRU byte store on disk, src/cache/disk_cache_store.cpp and include/reame/cache/
-- disk_cache_store.hpp. The cache directory is a map from file names to contents. Whether the file
-- system takes a file's whole content is the parameter `accepts`, and a write that fails is taken to be
-- noticed by the test of the stream: a flush that fails only when the stream is closed, behind that
-- test, is not modelled. Removing a file always succeeds.
pub mod Invariant
pub mod Budget
pub mod Eviction
pub mod Reads
pub mod Answers
pub mod Collisions
use Prim.Native.Nat.{bit_and}
use sovranx.Dict.{lookup, erase, insert, sum_by, Distinct, Every}
use sovranx.Prelude.{
  ℕ, zero, suc, ◌+◌, ◌-◌, ◌*◌, ◌/◌, ◌%◌, ◌^◌, Bool, true, false, not, ◌&&◌, ◌||◌, List, [], ◌∷◌,
  ◌++◌, Option, none, some, Bytes, codes, length, take, drop, get_or, ◌===◌, ltb, leb, ◌==◌,
  if◌then◌else◌,
}
use sovranx.Words.{u32_bytes, read_u32, checksum}

-- DiskCacheStore::Entry.
pub record Entry : Type 0 where
  pub path : Bytes
  pub size : ℕ
  pub recency : ℕ

pub record Store : Type 0 where
  pub max_bytes : ℕ
  pub entries : List (Bytes × Entry)
  pub total_bytes : ℕ
  pub next_recency : ℕ
  pub files : List (Bytes × Bytes)

-- kHeaderLen
abbrev pub header_len : ℕ
header_len = 4

hex_digit : ℕ → ℕ
hex_digit d = get_or (codes "0123456789abcdef") d 0

-- The sixteen hexadecimal digits, most significant first: `out` holds the digits after the n-th.
hex_digits : ℕ → ℕ → Bytes → Bytes
unfolding hex_digit
hex_digits zero v out = out
hex_digits (suc n) v out = hex_digits n (v / 16) (hex_digit (v % 16) ∷ out)

unfoldable pub hex64 : ℕ → Bytes
unfolding hex_digits
hex64 v = hex_digits 16 v []

unfoldable pub entry_size : Bytes → ℕ → ℕ
entry_size key payload = header_len + length key + payload

-- The file of a key: the hash of the key and the extension.
unfoldable pub store_path : Bytes → Bytes
unfolding hex64
store_path key = hex64 (checksum key) ++ codes ".kvc"

-- File layout: u32 key length | key bytes | payload.
unfoldable pub file_content : Bytes → Bytes → Bytes
file_content key payload = u32_bytes (length key % 2 ^ 32) ++ (key ++ payload)

-- in.read(p, n): the n bytes and the rest of the stream, or a failed stream.
unfoldable pub read_exact : ℕ → Bytes → Option (Bytes × Bytes)
read_exact n s = if ltb (length s) n then none else some (take n s, drop n s)

-- Key length, then key.
unfoldable pub read_key : Bytes → Option (Bytes × Bytes)
read_key s = elim (read_u32 s) [ none ↦ none | some (n, r) ↦ read_exact n r ]

unfoldable pub contains : Bytes → Store → Bool
contains key s = elim (lookup key s.entries) [ none ↦ false | some e ↦ true ]

unfoldable pub remove : Bytes → Store → Bool × Store
remove key s = elim (lookup key s.entries) [
  | none ↦ (false, s)
  | some e ↦ (
    true,
    record s {
      files = erase e.path s.files;
      total_bytes = s.total_bytes - e.size;
      entries = erase key s.entries;
    },
  )
]

-- std::min_element by recency: the first of the least.
unfoldable pub older : Bytes × Entry → Option (Bytes × Entry) → Bytes × Entry
older x none = x
older (k, e) (some (j, f)) = if ltb f.recency e.recency then (j, f) else (k, e)

unfoldable pub lru : List (Bytes × Entry) → Option (Bytes × Entry)
unfolding older
lru [] = none
lru (x ∷ m) = some (older x (lru m))

-- The loop of evict_until_fits; each round removes an entry, so the number of entries is enough fuel.
unfoldable pub evict_loop : ℕ → ℕ → Store → Store
evict_loop zero incoming s = s
evict_loop (suc fuel) incoming s = elim (lru s.entries) [
  | none ↦ s
  | some (key, e) ↦
      let rest = evict_loop fuel incoming (remove key s).1 in
      if ltb s.max_bytes (s.total_bytes + incoming) then rest else s
]

unfoldable pub evict_until_fits : ℕ → Store → Store
evict_until_fits incoming s =
    if s.max_bytes == 0 then s else evict_loop (length s.entries) incoming s

unfoldable pub put : (Bytes → Bytes → Bool) → Bytes → Bytes → Store → Bool × Store
put accepts key payload s =
    let incoming = entry_size key (length payload) in
    let room = evict_until_fits incoming (remove key s).1 in
    let path = store_path key in
    if not (s.max_bytes == 0) && ltb s.max_bytes incoming
    then (false, s)
    else if accepts path (file_content key payload)
    then (
      true,
      record room {
        files = insert path (file_content key payload) room.files;
        next_recency = room.next_recency + 1;
        total_bytes = room.total_bytes + incoming;
        entries =
            insert key (record { path = path; size = incoming; recency = room.next_recency })
              room.entries;
      },
    )
    else (false, record room { files = erase path room.files })

-- What get() reads from a file: the payload of `size - header - key` bytes under the right key.
unfoldable pub read_entry : Bytes → ℕ → Option Bytes → Option Bytes
read_entry key size none = none
read_entry key size (some content) = elim (read_key content) [
  | none ↦ none
  | some (stored, r) ↦
      if stored === key
      then elim (read_exact (size - header_len - length key) r) [
        | none ↦ none
        | some (payload, _) ↦ some payload
      ]
      else none
]

unfoldable pub get : Bytes → Store → Option Bytes × Store
get key s = elim (lookup key s.entries) [
  | none ↦ (none, s)
  | some e ↦ elim (read_entry key e.size (lookup e.path s.files)) [
    | none ↦ (none, (remove key s).1)
    | some payload ↦ (
      some payload,
      record s {
        entries = insert key (record e { recency = s.next_recency }) s.entries;
        next_recency = s.next_recency + 1;
      },
    )
  ]
]

clear_loop : ℕ → Store → Store
clear_loop zero s = s
clear_loop (suc fuel) s = elim s.entries [
  | [] ↦ s
  | (key, e) ∷ m ↦ clear_loop fuel (remove key s).1
]

unfoldable pub clear : Store → Store
unfolding clear_loop
clear s = clear_loop (length s.entries) s

unfoldable pub size_bytes : Store → ℕ
size_bytes s = s.total_bytes

unfoldable pub count : Store → ℕ
count s = length s.entries

-- A store on an empty directory.
unfoldable pub empty : ℕ → Store
empty max_bytes = record {
  max_bytes = max_bytes;
  entries = [];
  total_bytes = 0;
  next_recency = 1;
  files = [];
}
