-- ===== src/Cache/Store/Reads.antt =====
-- What a read returns after a write.
use sovranx.Cache.Store.{
  Entry, Store, header_len, entry_size, store_path, file_content, read_exact, read_key, read_entry,
  put, get, remove,
}
use sovranx.Cache.Store.Invariant.{remove-entries}
use sovranx.Cache.Store.Budget.{put_cases, stored, room, new_entry}
use sovranx.Dict.{lookup, insert, lookup-insert_self, lookup-erase_self}
use sovranx.Prelude.{
  ℕ, ◌+◌, ◌-◌, ◌%◌, ◌^◌, ◌≡◌, refl, sym, ◌∙◌, inl, inr, Option-cases, ap, subst, [], ◌++◌, Bool,
  true, none, some, Bytes, ===_refl, length, length-append, take-length-append, drop-length-append,
  take-length, drop_all, arith,
}
use sovranx.Words.{IsU32, read_u32-u32_bytes}

read_exact_all : (n : ℕ) (s : Bytes) → n ≡ length s → read_exact n s ≡ some (s, [])
unfolding read_exact
read_exact_all n s h = rw (take-length n s (omega arith), drop_all n s (omega arith)) (ground arith)

read_exact-append : (s t : Bytes) → read_exact (length s) (s ++ t) ≡ some (s, t)
unfolding read_exact
read_exact-append s t =
    rw (take-length-append s t, drop-length-append s t) (ground (arith, length-append s t))

pub read_key-file_content :
    (key payload : Bytes)
    → IsU32 (length key)
    → read_key (file_content key payload) ≡ some (key, payload)
unfolding read_key file_content
read_key-file_content key payload h =
    let small : length key % 2 ^ 32 ≡ length key = omega arith in
    rw (small, read_u32-u32_bytes (length key) (key ++ payload) h, read_key)
      (read_exact-append key payload)

-- A file that put() wrote is read back.
read_entry-file_content :
    (key payload : Bytes)
    → IsU32 (length key)
    → read_entry key (entry_size key (length payload)) (some (file_content key payload))
      ≡ some payload
unfolding read_entry
read_entry-file_content key payload h =
    rw (read_key-file_content key payload h, read_entry, ===_refl key)
      (rw (
        read_exact_all (entry_size key (length payload) - header_len - length key) payload
          (unfold entry_size in omega arith)))

pub get_hit :
    (key payload : Bytes) (e : Entry) (s : Store)
    → lookup key s.entries ≡ some e
    → read_entry key e.size (lookup e.path s.files) ≡ some payload
    → (get key s).0 ≡ some payload
unfolding get
get_hit key payload e s h r = rw (h, get) (rw r)

-- A get() right after a put() that succeeded returns the payload, whatever the store held and
-- whatever the put() evicted. The key is shorter than 4 GB.
pub get-put :
    (accepts : Bytes → Bytes → Bool) (key payload : Bytes) (s s' : Store)
    → IsU32 (length key)
    → put accepts key payload s ≡ (true, s')
    → (get key s').0 ≡ some payload
get-put accepts key payload s s' h =
    put_cases accepts key payload s (λ r. r ≡ (true, s') → (get key s').0 ≡ some payload)
      (λ _ _ e. cc) (λ _ _ e. subst (λ t. (get key t).0 ≡ some payload) (ap (λ r. r.1) e) written)
      (λ _ _ e. cc)
  where
    written : (get key (stored accepts key payload s)).0 ≡ some payload
    written =
        get_hit key payload (new_entry accepts key payload s) (stored accepts key payload s)
          (lookup-insert_self key (new_entry accepts key payload s)
            (room accepts key payload s).entries)
          (rw
            (lookup-insert_self (store_path key) (file_content key payload)
              (room accepts key payload s).files)
            (read_entry-file_content key payload h))

-- A get() answers a second time as it did the first time.
pub get-get : (key : Bytes) (s : Store) → (get key (get key s).1).0 ≡ (get key s).0
unfolding get
get-get key s = elim (Option-cases (lookup key s.entries)) [
  | inl missed ↦ rw (missed, get) (rw (missed, get) refl)
  | inr (e, found) ↦ elim (Option-cases (read_entry key e.size (lookup e.path s.files))) [
    | inl damaged ↦
        let gone : lookup key (remove key s).1.entries ≡ none =
          rw (remove-entries key s) (lookup-erase_self key s.entries) in
        rw (found, get) (rw (damaged, get) (rw (gone, get) refl))
    | inr (payload, read) ↦
        let touched = record e { recency = s.next_recency } in
        let later : Store = record s {
          entries = insert key touched s.entries;
          next_recency = s.next_recency + 1;
        } in
        let got : get key s ≡ (some payload, later) = rw (found, get) (rw read) in
        ap (λ r. (get key r.1).0) got
        ∙ get_hit key payload touched later (lookup-insert_self key touched s.entries) read
        ∙ sym (ap (λ r. r.0) got)
  ]
]

-- A removed key is not found, and its entry is not counted.
pub get-remove : (key : Bytes) (s : Store) → get key (remove key s).1 ≡ (none, (remove key s).1)
unfolding get
get-remove key s =
    let gone : lookup key (remove key s).1.entries ≡ none =
      rw (remove-entries key s) (lookup-erase_self key s.entries) in
    rw (gone, get)
