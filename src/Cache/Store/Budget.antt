-- ===== src/Cache/Store/Budget.antt =====
-- Every history of calls keeps the store's bookkeeping exact and its bytes within the budget.
use sovranx.Cache.Store.{
  Entry, Store, entry_size, store_path, file_content, remove, evict_until_fits, put, read_entry,
  get, clear_loop, clear, empty,
}
use sovranx.Cache.Store.Invariant.{
  IsValid, Every-recency_mono, remove-IsValid, remove-entries, remove-max_bytes, remove-total-le,
  evict_until_fits-IsValid, evict_until_fits-max_bytes, evict_until_fits_lem,
  evict_until_fits-lookup, sizes,
}
use sovranx.Dict.{
  lookup, erase, insert, lookup-erase_self, sum_by-erase, erase_absent, insert-Distinct,
  insert-Every, length-erase-le,
}
use sovranx.Prelude.{
  ℕ, zero, suc, ◌+◌, ◌≤◌, ◌<◌, ◌≡◌, ◌≢◌, refl, subst, ap, ◌∙◌, ◌⊎◌, inl, inr, Bool, true, false,
  not, ◌&&◌, Bool-cases, List, [], ◌∷◌, Option, none, some, Option-cases, Bytes, ===_iff, length,
  ltb, ◌==◌, arith,
}

-- No budget, or the bytes within it.
abbrev pub WithinBudget : Store → Type 0
WithinBudget s = (s.max_bytes ≡ 0) ⊎ (s.total_bytes ≤ s.max_bytes)

module _ (accepts : Bytes → Bytes → Bool) (key payload : Bytes) (s : Store) where
  -- The store with the old entry gone and room made.
  abbrev pub room : Store
  room = evict_until_fits (entry_size key (length payload)) (remove key s).1

  abbrev pub new_entry : Entry
  new_entry = record {
    path = store_path key;
    size = entry_size key (length payload);
    recency = room.next_recency;
  }

  -- The store with the new entry written.
  abbrev pub stored : Store
  stored = record room {
    files = insert (store_path key) (file_content key payload) room.files;
    next_recency = room.next_recency + 1;
    total_bytes = room.total_bytes + entry_size key (length payload);
    entries = insert key new_entry room.entries;
  }

  -- The three ways in which put() ends.
  pub put_cases {ℓ} :
      (P : Bool × Store → Type ℓ)
      → (s.max_bytes ≢ 0 → s.max_bytes < entry_size key (length payload) → P (false, s))
      → ((s.max_bytes ≡ 0) ⊎ (entry_size key (length payload) ≤ s.max_bytes)
          → accepts (store_path key) (file_content key payload) ≡ true
          → P (true, stored))
      → ((s.max_bytes ≡ 0) ⊎ (entry_size key (length payload) ≤ s.max_bytes)
          → accepts (store_path key) (file_content key payload) ≡ false
          → P (false, record room { files = erase (store_path key) room.files }))
      → P (put accepts key payload s)
  unfolding put
  put_cases P refused written failed =
      elim (Bool-cases
        (not (s.max_bytes == 0) && ltb s.max_bytes (entry_size key (length payload)))) [
          | inl e ↦ rw e (refused (ground arith) (ground arith))
          | inr e ↦ elim (Bool-cases (accepts (store_path key) (file_content key payload))) [
            | inl w ↦ rw e (rw w (written (ground arith) w))
            | inr w ↦ rw e (rw w (failed (ground arith) w))
          ]
        ]

  pub room-IsValid : IsValid s → IsValid room
  room-IsValid v = evict_until_fits-IsValid _ _ (remove-IsValid key s v)

  pub room-max_bytes : room.max_bytes ≡ s.max_bytes
  room-max_bytes = evict_until_fits-max_bytes _ _ ∙ remove-max_bytes key s

  room_absent : lookup key room.entries ≡ none
  room_absent = elim (Option-cases (lookup key room.entries)) [
    | inl h ↦ h
    | inr (e, h) ↦
        let kept : lookup key (erase key s.entries) ≡ some e =
          rw (remove-entries key s) at (evict_until_fits-lookup _ (remove key s).1 key e h) in
        cc (lookup-erase_self key s.entries)
  ]

  stored-IsValid : IsValid s → IsValid stored
  unfolding insert
  stored-IsValid v =
      let r = room-IsValid v in
      record {
        distinct = insert-Distinct key new_entry room.entries r.distinct;
        total = omega (arith, r.total, ap sizes (erase_absent key room.entries room_absent));
        recent =
            insert-Every (λ k e. e.recency < room.next_recency + 1) key new_entry room.entries
              (omega arith)
              (Every-recency_mono room.next_recency (room.next_recency + 1) room.entries
                (omega arith) r.recent);
      }

  pub put-IsValid : IsValid s → IsValid (put accepts key payload s).1
  put-IsValid v =
      put_cases (λ r. IsValid r.1) (λ _ _. v) (λ _ _. stored-IsValid v)
        λ _ _.
          let r = room-IsValid v in
          record { distinct = r.distinct; total = r.total; recent = r.recent }

  room_fits :
      IsValid s
      → (s.max_bytes ≡ 0) ⊎ (entry_size key (length payload) ≤ s.max_bytes)
      → (s.max_bytes ≡ 0) ⊎ (room.total_bytes + entry_size key (length payload) ≤ s.max_bytes)
  room_fits v (inl h) = inl h
  room_fits v (inr h) = elim (Bool-cases (s.max_bytes == 0)) [
    | inl z ↦ inl (ground arith)
    | inr z ↦ inr (
        subst (λ m. room.total_bytes + entry_size key (length payload) ≤ m) (remove-max_bytes key s)
          (evict_until_fits_lem _ (remove key s).1 (remove-IsValid key s v)
            (rw (remove-max_bytes key s) (ground arith)) (rw (remove-max_bytes key s) h)))
  ]

  pub put-WithinBudget : IsValid s → WithinBudget s → WithinBudget (put accepts key payload s).1
  put-WithinBudget v b =
      put_cases (λ r. WithinBudget r.1) (λ _ _. b)
        (λ fits _. ground (arith, room_fits v fits, room-max_bytes))
        λ fits _. ground (arith, room_fits v fits, room-max_bytes)

module _ (key : Bytes) (s : Store) where
  pub get_cases {ℓ} :
      (P : Option Bytes × Store → Type ℓ)
      → (lookup key s.entries ≡ none → P (none, s))
      → ((e : Entry)
          → lookup key s.entries ≡ some e
          → read_entry key e.size (lookup e.path s.files) ≡ none
          → P (none, (remove key s).1))
      → ((e : Entry) (payload : Bytes)
          → lookup key s.entries ≡ some e
          → read_entry key e.size (lookup e.path s.files) ≡ some payload
          → P (
            some payload,
            record s {
              entries = insert key (record e { recency = s.next_recency }) s.entries;
              next_recency = s.next_recency + 1;
            },
          ))
      → P (get key s)
  unfolding get
  get_cases P missing unreadable found = elim (Option-cases (lookup key s.entries)) [
    | inl h ↦ rw (h, get) (missing h)
    | inr (e, h) ↦ elim (Option-cases (read_entry key e.size (lookup e.path s.files))) [
      | inl r ↦ rw (h, get) (rw r (unreadable e h r))
      | inr (payload, r) ↦ rw (h, get) (rw r (found e payload h r))
    ]
  ]

  pub get-IsValid : IsValid s → IsValid (get key s).1
  unfolding insert
  get-IsValid v =
      get_cases (λ r. IsValid r.1) (λ _. v) (λ _ _ _. remove-IsValid key s v)
        λ e _ h _. record {
          distinct =
              insert-Distinct key (record e { recency = s.next_recency }) s.entries v.distinct;
          total = omega (arith, v.total, sum_by-erase (λ x. x.size) key s.entries e v.distinct h);
          recent =
              insert-Every (λ k e. e.recency < s.next_recency + 1) key
                (record e { recency = s.next_recency }) s.entries (omega arith)
                (Every-recency_mono s.next_recency (s.next_recency + 1) s.entries (omega arith)
                  v.recent);
        }

  pub remove-WithinBudget : WithinBudget s → WithinBudget (remove key s).1
  remove-WithinBudget b = ground (arith, remove-max_bytes key s, remove-total-le key s)

  pub get-WithinBudget : WithinBudget s → WithinBudget (get key s).1
  get-WithinBudget b =
      get_cases (λ r. WithinBudget r.1) (λ _. b) (λ _ _ _. remove-WithinBudget b) (λ _ _ _ _. b)

-- The calls that change a store.
pub data Call : Type 0 where
  puts : Bytes → Bytes → Call
  gets removes : Bytes → Call
  clears : Call

unfoldable pub step : (Bytes → Bytes → Bool) → Store → Call → Store
step accepts s (puts key payload) = (put accepts key payload s).1
step accepts s (gets key) = (get key s).1
step accepts s (removes key) = (remove key s).1
step accepts s clears = clear s

unfoldable pub run : (Bytes → Bytes → Bool) → Store → List Call → Store
unfolding step
run accepts s [] = s
run accepts s (c ∷ cs) = run accepts (step accepts s c) cs

-- Exact bookkeeping and bytes within the budget.
pub record IsSound (s : Store) : Type 0 where
  pub valid : IsValid s
  pub budget : WithinBudget s

remove-IsSound : (key : Bytes) (s : Store) → IsSound s → IsSound (remove key s).1
remove-IsSound key s h = record {
  valid = remove-IsValid key s h.valid;
  budget = remove-WithinBudget key s h.budget;
}

clear_round {ℓ} :
    (P : Store → Type ℓ) (f : ℕ) (s : Store)
    → (s.entries ≡ [] → P s)
    → ((k : Bytes) (x : Entry) (m : List (Bytes × Entry))
        → s.entries ≡ (k, x) ∷ m
        → P (clear_loop f (remove k s).1))
    → P (clear_loop (suc f) s)
unfolding clear_loop
clear_round P f s last more = each s.entries refl
  where
    each : (l : List (Bytes × Entry)) → s.entries ≡ l → P (clear_loop (suc f) s)
    each [] e = rw (e, clear_loop) (last e)
    each ((k, x) ∷ m) e = rw (e, clear_loop) (more k x m e)

clear_loop-IsSound : (f : ℕ) (s : Store) → IsSound s → IsSound (clear_loop f s)
clear_loop-IsSound zero s h = unfold clear_loop in h
clear_loop-IsSound (suc f) s h =
    clear_round IsSound f s (λ _. h)
      λ k _ _ _. clear_loop-IsSound f (remove k s).1 (remove-IsSound k s h)

clear_loop-entries : (f : ℕ) (s : Store) → length s.entries ≤ f → (clear_loop f s).entries ≡ []
clear_loop-entries zero s h = unfold clear_loop in nothing s.entries refl
  where
    nothing : (l : List (Bytes × Entry)) → s.entries ≡ l → s.entries ≡ []
    nothing [] e = e
    nothing (x ∷ m) e = absurd (omega (arith, ap length e))
clear_loop-entries (suc f) s h =
    clear_round (λ t. t.entries ≡ []) f s (λ e. e)
      λ k x m e. clear_loop-entries f (remove k s).1 (shorter k x m e)
  where
    shorter :
        (k : Bytes) (x : Entry) (m : List (Bytes × Entry))
        → s.entries ≡ (k, x) ∷ m
        → length (remove k s).1.entries ≤ f
    shorter k x m e =
        rw (remove-entries k s, e)
          (unfold erase in ground (arith, ===_iff k k, length-erase-le k m, ap length e))

-- clear() removes every entry; on a sound store no byte stays counted.
pub clear-entries : (s : Store) → IsSound s → ((clear s).entries ≡ []) × ((clear s).total_bytes ≡ 0)
unfolding clear
clear-entries s h =
    let gone = clear_loop-entries (length s.entries) s (omega arith) in
    let sound = clear_loop-IsSound (length s.entries) s h in
    (gone, omega (arith, sound.valid.total, ap sizes gone))

step-IsSound :
    (accepts : Bytes → Bytes → Bool) (s : Store) (c : Call) → IsSound s → IsSound (step accepts s c)
unfolding step
step-IsSound accepts s (puts key payload) h = record {
  valid = put-IsValid accepts key payload s h.valid;
  budget = put-WithinBudget accepts key payload s h.valid h.budget;
}
step-IsSound accepts s (gets key) h = record {
  valid = get-IsValid key s h.valid;
  budget = get-WithinBudget key s h.budget;
}
step-IsSound accepts s (removes key) h = remove-IsSound key s h
step-IsSound accepts s clears h = unfold clear in clear_loop-IsSound (length s.entries) s h

-- Whatever calls are made, and whatever writes fail, a sound store stays sound: no key twice, the
-- byte count the exact sum of the entries, and the bytes within the budget if there is one.
pub run-IsSound :
    (accepts : Bytes → Bytes → Bool) (cs : List Call) (s : Store)
    → IsSound s
    → IsSound (run accepts s cs)
unfolding run
run-IsSound accepts [] s h = h
run-IsSound accepts (c ∷ cs) s h =
    run-IsSound accepts cs (step accepts s c) (step-IsSound accepts s c h)

-- A store on an empty directory is sound.
pub empty-IsSound : (max_bytes : ℕ) → IsSound (empty max_bytes)
unfolding empty
empty-IsSound m = record {
  valid = record { distinct = tt; total = refl; recent = tt };
  budget = inr (omega arith);
}
