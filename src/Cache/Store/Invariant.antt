-- ===== src/Cache/Store/Invariant.antt =====
-- The bookkeeping of the store, and that every operation keeps it.
use sovranx.Cache.Store.{Entry, Store, remove, older, lru, evict_loop, evict_until_fits}
use sovranx.Dict.{
  lookup, erase, sum_by, sum_by-erase, Distinct, erase-Distinct, Every, erase-Every, erase_absent,
  lookup-erase, length-erase,
}
use sovranx.Prelude.{
  ℕ, zero, suc, ◌+◌, ◌-◌, ◌≤◌, ◌<◌, ◌≡◌, refl, subst, ap, ◌∙◌, inl, inr, true, false, Bool-cases,
  List, [], ◌∷◌, none, some, Option-cases, Bytes, ===_iff, length, ◌≢◌, ltb, ◌==◌, arith,
}

abbrev pub sizes : List (Bytes × Entry) → ℕ
sizes = sum_by (λ e. e.size)

-- No key twice, the byte count exact, and every recency below the counter.
pub record IsValid (s : Store) : Type 0 where
  pub distinct : Distinct s.entries
  pub total : s.total_bytes ≡ sizes s.entries
  pub recent : Every (λ k e. e.recency < s.next_recency) s.entries

pub Every-recency_mono :
    (m n : ℕ) (l : List (Bytes × Entry))
    → m ≤ n
    → Every (λ k e. e.recency < m) l
    → Every (λ k e. e.recency < n) l
Every-recency_mono m n [] h e = tt
Every-recency_mono m n ((k, x) ∷ l) h e = (omega arith, Every-recency_mono m n l h e.1)

remove_absent : (k : Bytes) (s : Store) → lookup k s.entries ≡ none → remove k s ≡ (false, s)
unfolding remove
remove_absent k s h = rw (h, remove)

remove_present :
    (k : Bytes) (s : Store) (e : Entry)
    → lookup k s.entries ≡ some e
    → remove k s ≡ (
      true,
      record s {
        files = erase e.path s.files;
        total_bytes = s.total_bytes - e.size;
        entries = erase k s.entries;
      },
    )
unfolding remove
remove_present k s e h = rw (h, remove)

pub remove-IsValid : (k : Bytes) (s : Store) → IsValid s → IsValid (remove k s).1
remove-IsValid k s v = elim (Option-cases (lookup k s.entries)) [
  | inl h ↦ rw (remove_absent k s h) v
  | inr (e, h) ↦ rw (remove_present k s e h) (record {
    distinct = erase-Distinct k s.entries v.distinct;
    total = omega (arith, v.total, sum_by-erase (λ x. x.size) k s.entries e v.distinct h);
    recent = erase-Every (λ k e. e.recency < s.next_recency) k s.entries v.recent;
  })
]

-- What removing a key leaves.
pub remove-entries : (k : Bytes) (s : Store) → (remove k s).1.entries ≡ erase k s.entries
remove-entries k s = elim (Option-cases (lookup k s.entries)) [
  | inl h ↦ rw (remove_absent k s h, erase_absent k s.entries h)
  | inr (e, h) ↦ rw (remove_present k s e h)
]

pub remove-max_bytes : (k : Bytes) (s : Store) → (remove k s).1.max_bytes ≡ s.max_bytes
unfolding remove
remove-max_bytes k s = ground arith

pub remove-next_recency : (k : Bytes) (s : Store) → (remove k s).1.next_recency ≡ s.next_recency
unfolding remove
remove-next_recency k s = ground arith

pub remove-total-le : (k : Bytes) (s : Store) → (remove k s).1.total_bytes ≤ s.total_bytes
unfolding remove
remove-total-le k s = ground arith

-- One round of the eviction loop.
pub evict_loop_cases {ℓ} :
    (P : Store → Type ℓ) (f n : ℕ) (s : Store)
    → (lru s.entries ≡ none → P s)
    → (s.total_bytes + n ≤ s.max_bytes → P s)
    → ((k : Bytes) (e : Entry)
        → lru s.entries ≡ some (k, e)
        → s.max_bytes < s.total_bytes + n
        → P (evict_loop f n (remove k s).1))
    → P (evict_loop (suc f) n s)
unfolding evict_loop
evict_loop_cases P f n s empty_case fits_case evict_case = elim (Option-cases (lru s.entries)) [
  | inl h ↦ rw (h, evict_loop) (empty_case h)
  | inr ((k, e), h) ↦ elim (Bool-cases (ltb s.max_bytes (s.total_bytes + n))) [
    | inl big ↦ rw (h, evict_loop) (rw big (evict_case k e h (ground arith)))
    | inr fits ↦ rw (h, evict_loop) (rw fits (fits_case (ground arith)))
  ]
]

evict_loop-IsValid : (f n : ℕ) (s : Store) → IsValid s → IsValid (evict_loop f n s)
evict_loop-IsValid zero n s v = unfold evict_loop in v
evict_loop-IsValid (suc f) n s v =
    evict_loop_cases IsValid f n s (λ _. v) (λ _. v)
      λ k e _ _. evict_loop-IsValid f n (remove k s).1 (remove-IsValid k s v)

pub lru_step : (x : Bytes × Entry) (m : List (Bytes × Entry)) → lru (x ∷ m) ≡ some (older x (lru m))
unfolding lru
lru_step x m = refl

pub lru-none : (l : List (Bytes × Entry)) → lru l ≡ none → l ≡ []
lru-none [] h = refl
lru-none (x ∷ m) h = cc (lru_step x m)

-- The victim is an entry of the store.
pub lru-lookup :
    (l : List (Bytes × Entry)) (k : Bytes) (e : Entry)
    → Distinct l
    → lru l ≡ some (k, e)
    → lookup k l ≡ some e
lru-lookup [] k e d h = unfold lru in cc
lru-lookup ((j, f) ∷ m) k e d h = elim (Option-cases (lru m)) [
  | inl last ↦ unfold lookup older in ground (arith, lru_step (j, f) m, last, ===_iff j j)
  | inr ((i, g), found) ↦ pick i g found (lru-lookup m i g d.1 found)
]
  where
    pick :
        (i : Bytes) (g : Entry)
        → lru m ≡ some (i, g)
        → lookup i m ≡ some g
        → lookup k ((j, f) ∷ m) ≡ some e
    pick i g found here =
        unfold lookup older in
        ground (arith, lru_step (j, f) m, found, here, ===_iff j j, ===_iff j i)

-- A freed store holds no more than before, under the same limit and counter.
evict_loop-max_bytes : (f n : ℕ) (s : Store) → (evict_loop f n s).max_bytes ≡ s.max_bytes
evict_loop-max_bytes zero n s = unfold evict_loop in refl
evict_loop-max_bytes (suc f) n s =
    evict_loop_cases (λ t. t.max_bytes ≡ s.max_bytes) f n s (λ _. refl) (λ _. refl)
      λ k e _ _. evict_loop-max_bytes f n (remove k s).1 ∙ remove-max_bytes k s

-- With a round for each entry the loop ends because the bytes fit.
evict_loop_fits :
    (f n : ℕ) (s : Store)
    → IsValid s
    → length s.entries ≤ f
    → n ≤ s.max_bytes
    → (evict_loop f n s).total_bytes + n ≤ s.max_bytes
evict_loop_fits zero n s v h k = unfold evict_loop in no_entries s.entries refl
  where
    no_entries : (l : List (Bytes × Entry)) → s.entries ≡ l → s.total_bytes + n ≤ s.max_bytes
    no_entries [] e = omega (arith, v.total, ap sizes e)
    no_entries (x ∷ m) e = absurd (omega (arith, ap length e))
evict_loop_fits (suc f) n s v h k =
    evict_loop_cases (λ t. t.total_bytes + n ≤ s.max_bytes) f n s
      (λ e. omega (arith, v.total, ap sizes (lru-none s.entries e), k)) (λ fits. fits)
      λ j e victim _.
        let found = lru-lookup s.entries j e v.distinct victim in
        subst (λ m. (evict_loop f n (remove j s).1).total_bytes + n ≤ m) (remove-max_bytes j s)
          (evict_loop_fits f n (remove j s).1 (remove-IsValid j s v)
            (omega
              (arith, ap length (remove-entries j s), length-erase j s.entries e v.distinct found))
            (omega (arith, remove-max_bytes j s)))

pub evict_until_fits-IsValid : (n : ℕ) (s : Store) → IsValid s → IsValid (evict_until_fits n s)
unfolding evict_until_fits
evict_until_fits-IsValid n s v = elim (Bool-cases (s.max_bytes == 0)) [
  | inl e ↦ rw e v
  | inr e ↦ rw e (evict_loop-IsValid (length s.entries) n s v)
]

pub evict_until_fits-max_bytes :
    (n : ℕ) (s : Store) → (evict_until_fits n s).max_bytes ≡ s.max_bytes
unfolding evict_until_fits
evict_until_fits-max_bytes n s = ground (arith, evict_loop-max_bytes (length s.entries) n s)

-- After eviction the incoming bytes fit, if they fit an empty store.
pub evict_until_fits_lem :
    (n : ℕ) (s : Store)
    → IsValid s
    → s.max_bytes ≢ 0
    → n ≤ s.max_bytes
    → (evict_until_fits n s).total_bytes + n ≤ s.max_bytes
unfolding evict_until_fits
evict_until_fits_lem n s v h k =
    ground (arith, evict_loop_fits (length s.entries) n s v (omega arith) k)

pub remove-lookup :
    (k j : Bytes) (s : Store) (e : Entry)
    → lookup j (remove k s).1.entries ≡ some e
    → lookup j s.entries ≡ some e
remove-lookup k j s e h =
    let kept : lookup j (erase k s.entries) ≡ some e = rw (remove-entries k s) at h in
    ground (arith, lookup-erase k j s.entries)

-- What is left after eviction was there before.
pub evict_loop-lookup :
    (f n : ℕ) (s : Store) (j : Bytes) (e : Entry)
    → lookup j (evict_loop f n s).entries ≡ some e
    → lookup j s.entries ≡ some e
evict_loop-lookup zero n s j e = unfold evict_loop in λ h. h
evict_loop-lookup (suc f) n s j e =
    evict_loop_cases (λ t. lookup j t.entries ≡ some e → lookup j s.entries ≡ some e) f n s
      (λ _ h. h) (λ _ h. h)
      λ k x _ _ h. remove-lookup k j s e (evict_loop-lookup f n (remove k s).1 j e h)

pub evict_until_fits-lookup :
    (n : ℕ) (s : Store) (j : Bytes) (e : Entry)
    → lookup j (evict_until_fits n s).entries ≡ some e
    → lookup j s.entries ≡ some e
unfolding evict_until_fits
evict_until_fits-lookup n s j e = elim (Bool-cases (s.max_bytes == 0)) [
  | inl u ↦ rw u (λ h. h)
  | inr u ↦ rw u (evict_loop-lookup (length s.entries) n s j e)
]
