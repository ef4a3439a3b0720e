-- ===== src/Cache/Store/Answers.antt =====
-- What the store of src/cache/disk_cache_store.cpp answers after a call that answers other keys.
use sovranx.Cache.Store.{
  Entry, Store, store_path, file_content, entry_size, read_entry, put, get, remove, evict_loop,
  evict_until_fits,
}
use sovranx.Cache.Store.Budget.{put_cases, room, stored, new_entry}
use sovranx.Cache.Store.Invariant.{remove-lookup, evict_loop_cases}
use sovranx.Cache.Store.Reads.{read_key-file_content, get_hit, get-put, get-get}
use sovranx.Dict.{lookup, erase, insert, lookup-erase, lookup-insert}
use sovranx.Prelude.{
  ℕ, zero, suc, ◌≡◌, refl, sym, ap, ◌∙◌, ◌⊎◌, inl, inr, Bool, false, Bool-cases, List, ◌+◌, none,
  some, Option-cases, Bytes, ◌===◌, ===_iff, length, ◌==◌, arith,
}
use sovranx.Words.{IsU32}

-- A store that has nothing that another has not.
pub record Within (s' s : Store) : Type 0 where
  pub entries_within :
      (k : Bytes) (e : Entry) → lookup k s'.entries ≡ some e → lookup k s.entries ≡ some e
  pub files_within : (p c : Bytes) → lookup p s'.files ≡ some c → lookup p s.files ≡ some c

Within-refl : (s : Store) → Within s s
Within-refl s = record { entries_within = λ k e h. h; files_within = λ p c h. h }

Within-trans : (r s t : Store) → Within r s → Within s t → Within r t
Within-trans r s t h k = record {
  entries_within = λ j e found. k.entries_within j e (h.entries_within j e found);
  files_within = λ p c found. k.files_within p c (h.files_within p c found);
}

erase-within :
    {V : Type 0} (k j : Bytes) (v : V) (m : List (Bytes × V))
    → lookup j (erase k m) ≡ some v
    → lookup j m ≡ some v
erase-within k j v m h = ground (arith, lookup-erase k j m)

pub remove-Within : (k : Bytes) (s : Store) → Within (remove k s).1 s
unfolding remove
remove-Within k s = record {
  entries_within = λ j e h. remove-lookup k j s e h;
  files_within = λ p c. elim (Option-cases (lookup k s.entries)) [
    | inl absent ↦ rw (remove, absent) (λ h. h)
    | inr (e, found) ↦ rw (remove, found) (λ h. erase-within e.path p c s.files h)
  ];
}

evict_loop-Within : (f n : ℕ) (s : Store) → Within (evict_loop f n s) s
evict_loop-Within zero n s = unfold evict_loop in Within-refl s
evict_loop-Within (suc f) n s =
    evict_loop_cases (λ t. Within t s) f n s (λ _. Within-refl s) (λ _. Within-refl s)
      λ k e _ _.
        Within-trans (evict_loop f n (remove k s).1) (remove k s).1 s
          (evict_loop-Within f n (remove k s).1) (remove-Within k s)

evict_until_fits-Within : (n : ℕ) (s : Store) → Within (evict_until_fits n s) s
unfolding evict_until_fits
evict_until_fits-Within n s = elim (Bool-cases (s.max_bytes == 0)) [
  | inl u ↦ rw u (Within-refl s)
  | inr u ↦ rw u (evict_loop-Within (length s.entries) n s)
]

get_found :
    (key x : Bytes) (s : Store)
    → (get key s).0 ≡ some x
    → (e : Entry) × (lookup key s.entries ≡ some e)
      × (read_entry key e.size (lookup e.path s.files) ≡ some x)
unfolding get
get_found key x s h = elim (Option-cases (lookup key s.entries)) [
  | inl missed ↦ absurd (let k = rw (missed, get) at h in ground arith)
  | inr (e, found) ↦ elim (Option-cases (read_entry key e.size (lookup e.path s.files))) [
    | inl damaged ↦ absurd (let k = rw (found, get, damaged) at h in ground arith)
    | inr (y, read) ↦ let k : some y ≡ some x = rw (found, get, read) at h in (e, found, read ∙ k)
  ]
]

read_entry-none : (key : Bytes) (n : ℕ) → read_entry key n none ≡ none
unfolding read_entry
read_entry-none key n = refl

pub Within-get :
    (s' s : Store) (key x : Bytes) → Within s' s → (get key s').0 ≡ some x → (get key s).0 ≡ some x
Within-get s' s key x h answered =
    let (e, found, read) = get_found key x s' answered in
    elim (Option-cases (lookup e.path s'.files)) [
      | inl gone ↦ absurd (
          let k : none ≡ some x = sym (read_entry-none key e.size) ∙ rw gone at read in
          ground arith)
      | inr (c, file) ↦
          let same : lookup e.path s.files ≡ lookup e.path s'.files =
            h.files_within e.path c file ∙ sym file in
          get_hit key x e s (h.entries_within key e found) (ap (read_entry key e.size) same ∙ read)
    ]

-- The file of one key does not answer another.
read_entry_other :
    (key j payload : Bytes) (n : ℕ)
    → IsU32 (length key)
    → (key === j) ≡ false
    → read_entry j n (some (file_content key payload)) ≡ none
unfolding read_entry
read_entry_other key j payload n small other =
    rw (read_key-file_content key payload small, read_entry, other) refl

module _ (accepts : Bytes → Bytes → Bool) (key payload : Bytes) (s : Store) where
  room-Within : Within (room accepts key payload s) s
  room-Within =
      Within-trans (room accepts key payload s) (remove key s).1 s
        (evict_until_fits-Within (entry_size key (length payload)) (remove key s).1)
        (remove-Within key s)

  stored_other :
      (j x : Bytes)
      → IsU32 (length key)
      → (key === j) ≡ false
      → (get j (stored accepts key payload s)).0 ≡ some x
      → (get j (room accepts key payload s)).0 ≡ some x
  stored_other j x small other answered =
      let before = room accepts key payload s in
      let after = stored accepts key payload s in
      let path = store_path key in
      let content = file_content key payload in
      let (e, found, read) = get_found j x after answered in
      let found' : lookup j before.entries ≡ some e =
        rw (lookup-insert key j (new_entry accepts key payload s) before.entries, other) at found in
      elim (Bool-cases (path === e.path)) [
        | inl same ↦
            let file : lookup e.path after.files ≡ some content =
              lookup-insert path e.path content before.files ∙ rw same refl in
            absurd (
              let k : none ≡ some x =
                sym (read_entry_other key j payload e.size small other) ∙ rw file at read in
              ground arith)
        | inr apart ↦
            let file : lookup e.path after.files ≡ lookup e.path before.files =
              lookup-insert path e.path content before.files ∙ rw apart refl in
            get_hit j x e before found' (rw file at read)
      ]

  -- What a store answers after a put is what was put, or what it answered before.
  pub put_answers :
      (j x : Bytes)
      → IsU32 (length key)
      → (get j (put accepts key payload s).1).0 ≡ some x
      → ((j ≡ key) × (x ≡ payload)) ⊎ ((get j s).0 ≡ some x)
  put_answers j x small =
      let P : Bool × Store → Type 0 = λ r.
        put accepts key payload s ≡ r
        → (get j r.1).0 ≡ some x
        → ((j ≡ key) × (x ≡ payload)) ⊎ ((get j s).0 ≡ some x) in
      put_cases accepts key payload s P (λ _ _ e h. inr h)
        (λ _ _ e h. elim (Bool-cases (key === j)) [
          | inl same ↦
              let k : key ≡ j = (===_iff key j).0 same in
              let back : some payload ≡ some x =
                sym (get-put accepts key payload s (stored accepts key payload s) small e)
                ∙ ap (λ i. (get i (stored accepts key payload s)).0) k
                ∙ h in
              inl (sym k, ground arith)
          | inr other ↦ inr (
              Within-get (room accepts key payload s) s j x room-Within
                (stored_other j x small other h))
        ])
        (λ _ _ e h. inr (
          let before = room accepts key payload s in
          let after : Store = record before { files = erase (store_path key) before.files } in
          Within-get after s j x
            (Within-trans after before s
              (record {
                entries_within = λ k e h. h;
                files_within = λ p c h. erase-within (store_path key) p c before.files h;
              })
              room-Within)
            h))
        refl

get_other :
    (key j x : Bytes) (s : Store)
    → (key === j) ≡ false
    → (get j (get key s).1).0 ≡ some x
    → (get j s).0 ≡ some x
unfolding get
get_other key j x s other answered = elim (Option-cases (lookup key s.entries)) [
  | inl missed ↦
      let same : (get key s).1 ≡ s = rw (get, missed) refl in
      ap (λ t. (get j t).0) (sym same) ∙ answered
  | inr (e, found) ↦ elim (Option-cases (read_entry key e.size (lookup e.path s.files))) [
    | inl damaged ↦
        let same : (get key s).1 ≡ (remove key s).1 = rw (get, found) (rw damaged refl) in
        Within-get (remove key s).1 s j x (remove-Within key s)
          (ap (λ t. (get j t).0) (sym same) ∙ answered)
    | inr (payload, read) ↦
        let touched = record e { recency = s.next_recency } in
        let later : Store = record s {
          entries = insert key touched s.entries;
          next_recency = s.next_recency + 1;
        } in
        let same : (get key s).1 ≡ later = rw (get, found) (rw read refl) in
        let (f, there, reads) = get_found j x later (ap (λ t. (get j t).0) (sym same) ∙ answered) in
        get_hit j x f s (rw (lookup-insert key j touched s.entries, other) at there) reads
  ]
]

-- What a store answers after a get is what it answered before.
pub get_answers :
    (key j x : Bytes) (s : Store) → (get j (get key s).1).0 ≡ some x → (get j s).0 ≡ some x
get_answers key j x s answered = elim (Bool-cases (key === j)) [
  | inl same ↦
      let k : key ≡ j = (===_iff key j).0 same in
      ap (λ i. (get i s).0) (sym k)
      ∙ sym (get-get key s)
      ∙ ap (λ i. (get i (get key s).1).0) k
      ∙ answered
  | inr other ↦ get_other key j x s other answered
]
