-- ===== src/Cache/Prefix/Managed.antt =====
-- That the cache manager of src/cache/cache_manager.cpp serves the prefix cache as it needs.
use sovranx.Backend.{Backend, IsBackend}
use sovranx.Cache.Manager.{
  CacheManager, Zstd, decompress, envelope, open_envelope, key_with, token_bytes, pack, miss, hit,
  restore, load_entry, load_state, store_state,
}
use sovranx.Cache.Manager.Loads.{RoundTrips, open_envelope-envelope, pack-decompress}
use sovranx.Cache.Prefix.{manager_snapshots, key_for}
use sovranx.Cache.Prefix.Prefill.{IsSnapshots}
use sovranx.Cache.Store.{Store, put, get, remove}
use sovranx.Cache.Store.Answers.{Within-get, remove-Within, put_answers, get_answers}
use sovranx.Decimal.{value, to_string, all_digits}
use sovranx.Decimal.RoundTrip.{value-to_string, all_digits-to_string, length-to_string_u64}
use sovranx.Prelude.{
  append-nil, ℕ, ◌^◌, ◌≤◌, ◌<◌, ◌≡◌, sym, ap, ap₂, ◌∙◌, subst, inl, inr, Bool, true, false,
  Bool-cases, List, [], ◌∷◌, ◌++◌, append_assoc, Option, some, Option-cases, Bytes, codes, ok,
  Outcome-cases, ok-injective, length, length-append, length-take, take, take-length, ◌==◌, min,
  leb, if◌then◌else◌, arith,
}
use sovranx.Words.{IsU32, checksum, checksum-IsU64}

-- What stands behind the last 'n'.
after_n : Bytes → Bytes → Bytes
after_n cur [] = cur
after_n cur (c ∷ s) =
    let here = after_n [] s in
    let on = after_n (cur ++ (c ∷ [])) s in if c == b'n' then here else on

after_n-digits : (cur d : Bytes) → all_digits d ≡ true → after_n cur d ≡ cur ++ d
unfolding after_n all_digits
after_n-digits cur [] h = sym (append-nil cur)
after_n-digits cur (c ∷ d) h =
    let other : (c == b'n') ≡ false = ground arith in
    let rest : all_digits d ≡ true = ground arith in
    rw other (after_n-digits (cur ++ (c ∷ [])) d rest ∙ append_assoc cur (c ∷ []) d)

after_n-last : (cur front d : Bytes) → all_digits d ≡ true → after_n cur (front ++ (b'n' ∷ d)) ≡ d
unfolding after_n
after_n-last cur [] d h = after_n-digits [] d h
after_n-last cur (c ∷ front) d h = elim (Bool-cases (c == b'n')) [
  | inl here ↦ rw here (after_n-last [] front d h)
  | inr other ↦ rw other (after_n-last (cur ++ (c ∷ [])) front d h)
]

-- A key ends in the number of its tokens.
key_for_shape :
    (tag : Bytes) (prefix : List ℕ) (n : ℕ)
    → (front : Bytes) × (key_for tag prefix n
        ≡ front ++ (b'n' ∷ to_string (length (take n prefix))))
      × (length front ≤ 46)
unfolding key_for key_with
key_for_shape tag prefix n =
    let key_bytes = tag ++ (0 ∷ token_bytes (take n prefix)) in
    let salted = key_bytes ++ (b'x' ∷ []) in
    let first = to_string (checksum key_bytes) in
    let second = to_string (checksum salted) in
    let last = b'n' ∷ to_string (length (take n prefix)) in
    let second_part = second ++ (b'-' ∷ []) in
    let inner = append_assoc second (b'-' ∷ []) last in
    let outer = append_assoc first (b'-' ∷ second_part) last in
    let a = length-to_string_u64 (checksum key_bytes) (checksum-IsU64 key_bytes) in
    let b = length-to_string_u64 (checksum salted) (checksum-IsU64 salted) in
    let sum = length-append first (b'-' ∷ second_part) in
    let sum' = length-append second (b'-' ∷ []) in
    (
      codes "pfx-" ++ (first ++ (b'-' ∷ second_part)),
      ap (λ s. codes "pfx-" ++ s) (ap (λ s. first ++ (b'-' ∷ s)) (sym inner) ∙ sym outer),
      omega (arith, a, b, sum, sum'),
    )

key_for-take :
    (tag : Bytes) (prefix : List ℕ) (n n' : ℕ)
    → key_for tag prefix n' ≡ key_for tag prefix n
    → take n' prefix ≡ take n prefix
key_for-take tag prefix n n' same =
    let (front, shape, small) = key_for_shape tag prefix n in
    let (front', shape', small') = key_for_shape tag prefix n' in
    let len = length (take n prefix) in
    let len' = length (take n' prefix) in
    let digits : to_string len' ≡ to_string len =
      sym (after_n-last [] front' (to_string len') (all_digits-to_string len'))
      ∙ ap (after_n []) (sym shape' ∙ same ∙ shape)
      ∙ after_n-last [] front (to_string len) (all_digits-to_string len) in
    let lens : len' ≡ len =
      sym (value-to_string len') ∙ ap (value 0) digits ∙ value-to_string len in
    take_same n n' prefix (sym (length-take n' prefix) ∙ lens ∙ length-take n prefix)
  where
    take_same :
        (n n' : ℕ) (xs : List ℕ) → min n' (length xs) ≡ min n (length xs) → take n' xs ≡ take n xs
    take_same n n' xs e = elim (Bool-cases (leb (length xs) n)) [
      | inl whole ↦ take-length n' xs (ground arith) ∙ sym (take-length n xs (ground arith))
      | inr part ↦ ap (λ k. take k xs) (ground arith)
    ]

pub key_for-IsU32 :
    (tag : Bytes) (prefix : List ℕ) (n : ℕ)
    → length prefix < 2 ^ 32
    → IsU32 (length (key_for tag prefix n))
key_for-IsU32 tag prefix n short =
    let (front, shape, small) = key_for_shape tag prefix n in
    let len = length (take n prefix) in
    let under : len ≤ length prefix = let l = length-take n prefix in omega (arith, l) in
    let digits = length-to_string_u64 len (omega (arith, under, short)) in
    let sum = length-append front (b'n' ∷ to_string len) in
    omega (arith, ap length shape, sum, small, digits)

module _ (b : Backend) (codec : Option Zstd) (accepts : Bytes → Bytes → Bool) where
  -- The store behind a load has been asked, and the entry perhaps removed.
  load_state-store :
      (P : Store → Type 0) (key : Bytes) (m : CacheManager) (st : b.State)
      → P (get key m.store).1
      → P (remove key (get key m.store).1).1
      → P (load_state b codec accepts key m st).1.store
  unfolding load_state load_entry miss hit
  load_state-store P key m st asked dropped = elim (Option-cases (get key m.store).0) [
    | inl missed ↦ rw (load_state, missed) asked
    | inr (entry, found) ↦ elim (Option-cases (open_envelope entry)) [
      | inl refused ↦ rw (load_state, found) (rw (load_entry, refused) dropped)
      | inr ((n, packed), opened) ↦ elim (Bool-cases (restore b codec accepts packed n st).0) [
        | inl good ↦ rw (load_state, found) (rw (load_entry, opened) (rw good asked))
        | inr bad ↦ rw (load_state, found) (rw (load_entry, opened) (rw bad dropped))
      ]
    ]
  ]

  -- A load that restores has read an entry, opened it, and given its state back.
  load_state-true :
      (key : Bytes) (m m' : CacheManager) (st st' : b.State)
      → load_state b codec accepts key m st ≡ (true, m', st')
      → (entry : Bytes) × (n : ℕ) × (packed blob : Bytes) × ((get key m.store).0 ≡ some entry)
        × (open_envelope entry ≡ some (n, packed))
        × (decompress codec packed ≡ ok blob)
        × (b.set_state blob n st ≡ ok st')
  unfolding load_state load_entry restore
  load_state-true key m m' st st' e = elim (Option-cases (get key m.store).0) [
    | inl missed ↦ absurd (let k = rw (load_state, missed) at e in ground arith)
    | inr (entry, found) ↦ elim (Option-cases (open_envelope entry)) [
      | inl refused ↦
          absurd (let k = rw (load_state, found, load_entry, refused) at e in ground arith)
      | inr ((n, packed), opened) ↦ elim (Outcome-cases (decompress codec packed)) [
        | inr (x, broken) ↦ absurd (
            let k = rw (load_state, found, load_entry, opened, restore, broken) at e in
            ground arith)
        | inl (blob, whole) ↦ elim (Outcome-cases (b.set_state blob n st)) [
          | inr (x, failed) ↦ absurd (
              let k = rw (load_state, found, load_entry, opened, restore, whole, failed) at e in
              ground arith)
          | inl (t, taken) ↦
              let k : t ≡ st' =
                ap (λ r. r.2)
                  (rw (load_state, found, load_entry, opened, restore, whole, taken) at e) in
              (entry, n, packed, blob, found, opened, whole, taken ∙ ap ok k)
        ]
      ]
    ]
  ]

  -- A save that returns has put the envelope of the packed state.
  store_state-put :
      (key : Bytes) (st : b.State) (n : ℕ) (m m' : CacheManager) (saved : Bool)
      → store_state b codec accepts key st n m ≡ ok (saved, m')
      → (packed : Bytes) × (pack b codec accepts m.compressed (b.state_data st) ≡ ok packed)
        × (m'.store ≡ (put accepts key (envelope packed n) m.store).1)
  unfolding store_state
  store_state-put key st n m m' saved h =
      elim (Outcome-cases (pack b codec accepts m.compressed (b.state_data st))) [
        | inl (packed, e) ↦ (packed, e, ground (arith, e))
        | inr (x, e) ↦ absurd (ground (arith, e))
      ]

opened_injective :
    (n k : ℕ) (p q : Bytes)
    → ◌≡◌ {A = Option (ℕ × Bytes)} (some (n, p)) (some (k, q))
    → (n ≡ k) × (p ≡ q)
opened_injective n k p q e = ground (arith, e)

module _ (b : Backend) (Holds : b.State → List ℕ → Type 0) (laws : IsBackend b Holds) (z : Zstd)
    (accepts : Bytes → Bytes → Bool) (tag : Bytes) where
  -- What restores from this entry holds these tokens.
  abbrev pub Restores : Bytes → List ℕ → Type 0
  Restores entry held =
      (n : ℕ) (packed blob : Bytes) (st st' : b.State)
      → open_envelope entry ≡ some (n, packed)
      → decompress (some z) packed ≡ ok blob
      → b.set_state blob n st ≡ ok st'
      → Holds st' held

  -- The entries under the keys of a prompt's fronts restore those fronts.
  abbrev pub GoodFor : List ℕ → CacheManager → Type 0
  GoodFor prefix m =
      (n : ℕ) (entry : Bytes)
      → (get (key_for tag prefix n) m.store).0 ≡ some entry
      → Restores entry (take n prefix)

  saved-Restores :
      (flag : Bool) (held : List ℕ) (n : ℕ) (st : b.State) (packed : Bytes)
      → RoundTrips (some z)
      → IsU32 n
      → length held ≡ n
      → Holds st held
      → pack b (some z) accepts flag (b.state_data st) ≡ ok packed
      → Restores (envelope packed n) held
  saved-Restores flag held n st packed law small size holds packs k packed' blob t t' opened whole
        taken =
      let (positions, same_packed) =
        opened_injective n k packed packed'
          (sym (open_envelope-envelope packed n small) ∙ opened) in
      let blobs : b.state_data st ≡ blob = ok-injective (b.state_data st) blob (
        sym (pack-decompress b (some z) accepts flag (b.state_data st) packed law packs)
        ∙ ap (decompress (some z)) same_packed
        ∙ whole) in
      laws.restore_holds st t held holds t'
        (ap₂ (λ x y. b.set_state x y t) blobs (size ∙ positions) ∙ taken)

  pub load_hit-Holds :
      (prefix : List ℕ) (n : ℕ) (c c' : CacheManager) (st st' : b.State)
      → GoodFor prefix c
      → load_state b (some z) accepts (key_for tag prefix n) c st ≡ (true, c', st')
      → Holds st' (take n prefix)
  load_hit-Holds prefix n c c' st st' good e =
      let (entry, k, packed, blob, found, opened, whole, taken) =
        load_state-true b (some z) accepts (key_for tag prefix n) c c' st st' e in
      good n entry found k packed blob st st' opened whole taken

  pub load_state-GoodFor :
      (prefix : List ℕ) (key : Bytes) (c : CacheManager) (st : b.State)
      → GoodFor prefix c
      → GoodFor prefix (load_state b (some z) accepts key c st).1
  load_state-GoodFor prefix key c st good n entry found =
      let asked = (get key c.store).1 in
      let other = key_for tag prefix n in
      good n entry (
        load_state-store b (some z) accepts
          (λ s. (get other s).0 ≡ some entry → (get other c.store).0 ≡ some entry) key c st
          (get_answers key other entry c.store)
          (λ h.
            get_answers key other entry c.store
              (Within-get (remove key asked).1 asked other entry (remove-Within key asked) h))
          found)

  pub store_state-GoodFor :
      (prefix : List ℕ) (n : ℕ) (c c' : CacheManager) (st : b.State) (saved : Bool)
      → RoundTrips (some z)
      → n ≤ length prefix
      → length prefix < 2 ^ 32
      → GoodFor prefix c
      → Holds st (take n prefix)
      → store_state b (some z) accepts (key_for tag prefix n) st n c ≡ ok (saved, c')
      → GoodFor prefix c'
  store_state-GoodFor prefix n c c' st saved law under short good holds e n' entry found =
      let key = key_for tag prefix n in
      let other = key_for tag prefix n' in
      let (packed, packs, stored) = store_state-put b (some z) accepts key st n c c' saved e in
      let size : length (take n prefix) ≡ n =
        let l = length-take n prefix in omega (arith, l, under) in
      elim (put_answers accepts key (envelope packed n) c.store other entry
        (key_for-IsU32 tag prefix n short) (ap (λ s. (get other s).0) (sym stored) ∙ found)) [
          | inr before ↦ good n' entry before
          | inl (same_key, same_entry) ↦
              subst (λ x. Restores x (take n' prefix)) (sym same_entry)
                (subst (Restores (envelope packed n)) (sym (key_for-take tag prefix n n' same_key))
                  (saved-Restores c.compressed (take n prefix) n st packed law
                    (omega (arith, under, short)) size holds packs))
        ]

  -- The cache manager over zstd, which gives back what it compressed, serves the prefix cache.
  abbrev pub manager_snapshots-IsSnapshots :
      RoundTrips (some z) → IsSnapshots b Holds (manager_snapshots b z accepts) tag
  manager_snapshots-IsSnapshots law = record {
    Good = GoodFor;
    load_hit = load_hit-Holds;
    load_good = load_state-GoodFor;
    save_good = λ prefix n c c' st saved. store_state-GoodFor prefix n c c' st saved law;
  }
