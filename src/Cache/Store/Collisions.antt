-- ===== src/Cache/Store/Collisions.antt =====
-- Two keys whose hashes, and so file names, are the same.
use sovranx.Cache.Store.{
  Entry, Store, store_path, file_content, read_entry, remove, evict_until_fits, put, get,
}
use sovranx.Cache.Store.Budget.{stored, room, new_entry}
use sovranx.Cache.Store.Invariant.{remove-entries, remove-max_bytes, evict_until_fits-max_bytes}
use sovranx.Cache.Store.Reads.{read_key-file_content}
use sovranx.Dict.{lookup, erase, lookup-insert, lookup-erase, lookup-insert_self, lookup-erase_self}
use sovranx.Prelude.{
  ℕ, ◌≡◌, ◌≢◌, refl, sym, ap, ◌∙◌, Bool, true, false, none, some, Bytes, ◌===◌, ===_iff, length,
  if◌then◌else◌, arith,
}
use sovranx.Words.{IsU32}

===_false : (x y : Bytes) → x ≢ y → (x === y) ≡ false
===_false x y h = ground (arith, ===_iff x y)

evict_until_fits_unlimited : (n : ℕ) (s : Store) → s.max_bytes ≡ 0 → evict_until_fits n s ≡ s
unfolding evict_until_fits
evict_until_fits_unlimited n s h = ground arith

module _ (accepts : Bytes → Bytes → Bool) (key payload : Bytes) (s : Store)
    (h : s.max_bytes ≡ 0) where
  room_max : (room accepts key payload s).max_bytes ≡ s.max_bytes
  room_max = evict_until_fits-max_bytes _ _ ∙ remove-max_bytes key s

  room_unlimited : room accepts key payload s ≡ (remove key s).1
  room_unlimited = evict_until_fits_unlimited _ _ (remove-max_bytes key s ∙ h)

  put_unlimited :
      accepts (store_path key) (file_content key payload) ≡ true
      → put accepts key payload s ≡ (true, stored accepts key payload s)
  unfolding put
  put_unlimited w = ground arith

  -- What another key finds after a put() without a budget.
  stored-lookup :
      (j : Bytes)
      → lookup j (stored accepts key payload s).entries
        ≡ (if key === j then some (new_entry accepts key payload s) else lookup j s.entries)
  stored-lookup j =
      lookup-insert key j (new_entry accepts key payload s) (room accepts key payload s).entries
      ∙ ground (
        arith,
        ap (λ (t : Store). lookup j t.entries) room_unlimited,
        ap (lookup j) (remove-entries key s),
        lookup-erase key j s.entries,
      )

get_unreadable :
    (key : Bytes) (e : Entry) (s : Store)
    → lookup key s.entries ≡ some e
    → read_entry key e.size (lookup e.path s.files) ≡ none
    → get key s ≡ (none, (remove key s).1)
unfolding get
get_unreadable key e s h r = rw (h, get) (rw r)

remove_files :
    (key : Bytes) (e : Entry) (s : Store)
    → lookup key s.entries ≡ some e
    → (remove key s).1.files ≡ erase e.path s.files
unfolding remove
remove_files key e s h = rw (h, remove)

other_key :
    (key other payload : Bytes) (size : ℕ)
    → IsU32 (length other)
    → other ≢ key
    → read_entry key size (some (file_content other payload)) ≡ none
unfolding read_entry
other_key key other payload size h ne =
    rw (read_key-file_content other payload h, read_entry, ===_false other key ne)

module _ (accepts : Bytes → Bytes → Bool) (key other p q : Bytes) (s : Store) where
  -- After a put() of each key.
  abbrev pub first : Store
  first = (put accepts key p s).1

  abbrev pub both : Store
  both = (put accepts other q first).1

  -- Two different keys with one file name, in a store without a budget where every write succeeds:
  -- after a put() of each, a get() of the first finds nothing, and it makes the value of the second,
  -- which was just stored, unreadable as well.
  pub collision_loses_both :
      s.max_bytes ≡ 0
      → ((path content : Bytes) → accepts path content ≡ true)
      → key ≢ other
      → store_path key ≡ store_path other
      → IsU32 (length other)
      → ((get key both).0 ≡ none) × ((get other (get key both).1).0 ≡ none)
  collision_loses_both unlimited writes ne same h =
      (rw lost, rw lost (rw (get_unreadable other e2 (remove key both).1 kept unreadable)))
    where
      e1 : Entry
      e1 = new_entry accepts key p s

      e2 : Entry
      e2 = new_entry accepts other q first

      is_first : first ≡ stored accepts key p s
      is_first = ap (λ r. r.1) (put_unlimited accepts key p s unlimited (writes _ _))

      first_unlimited : first.max_bytes ≡ 0
      first_unlimited =
          ap (λ (t : Store). t.max_bytes) is_first ∙ room_max accepts key p s unlimited ∙ unlimited

      is_both : both ≡ stored accepts other q first
      is_both = ap (λ r. r.1) (put_unlimited accepts other q first first_unlimited (writes _ _))

      first_entry : lookup key first.entries ≡ some e1
      first_entry =
          ap (λ (t : Store). lookup key t.entries) is_first
          ∙ lookup-insert_self key e1 (room accepts key p s).entries

      both_first : lookup key both.entries ≡ some e1
      both_first =
          ap (λ (t : Store). lookup key t.entries) is_both
          ∙ stored-lookup accepts other q first first_unlimited key
          ∙ rw (===_false other key (λ e. ne (sym e))) first_entry

      both_other : lookup other both.entries ≡ some e2
      both_other =
          ap (λ (t : Store). lookup other t.entries) is_both
          ∙ lookup-insert_self other e2 (room accepts other q first).entries

      both_file : lookup (store_path key) both.files ≡ some (file_content other q)
      both_file = rw same (
          ap (λ (t : Store). lookup (store_path other) t.files) is_both
          ∙ lookup-insert_self (store_path other) (file_content other q)
              (room accepts other q first).files)

      lost : get key both ≡ (none, (remove key both).1)
      lost =
          get_unreadable key e1 both both_first
            (rw both_file (other_key key other q e1.size h (λ e. ne (sym e))))

      kept : lookup other (remove key both).1.entries ≡ some e2
      kept =
          rw (remove-entries key both, lookup-erase key other both.entries, ===_false key other ne)
            both_other

      unreadable : read_entry other e2.size (lookup e2.path (remove key both).1.files) ≡ none
      unreadable =
          rw (remove_files key e1 both both_first, same, lookup-erase_self (store_path other))
            (unfold read_entry in refl)
