-- ===== src/Cache/Store/Eviction.antt =====
-- Which entries make room: the least recently used ones.
use sovranx.Cache.Store.{Entry, Store, remove, older, lru, evict_loop, evict_until_fits}
use sovranx.Cache.Store.Invariant.{
  IsValid, remove-IsValid, remove-entries, remove-lookup, lru_step, lru-none, lru-lookup,
  evict_loop_cases, evict_loop-lookup,
}
use sovranx.Dict.{lookup, lookup-erase, Every, lookup-Every}
use sovranx.Prelude.{
  ℕ, zero, suc, ◌≤◌, ◌≡◌, sym, ap, subst, inl, inr, Bool-cases, List, [], ◌∷◌, none, some,
  Option-cases, Bytes, ◌===◌, ===_iff, length, ltb, ◌==◌, arith,
}

Every-from :
    (m n : ℕ) (l : List (Bytes × Entry))
    → m ≤ n
    → Every (λ k e. n ≤ e.recency) l
    → Every (λ k e. m ≤ e.recency) l
Every-from m n [] h e = tt
Every-from m n ((k, x) ∷ l) h e = (omega arith, Every-from m n l h e.1)

-- The victim is used no later than any entry.
lru-least :
    (l : List (Bytes × Entry)) (k : Bytes) (e : Entry)
    → lru l ≡ some (k, e)
    → Every (λ j f. e.recency ≤ f.recency) l
unfolding older
lru-least [] k e h = tt
lru-least ((j, f) ∷ m) k e h = elim (Option-cases (lru m)) [
  | inl last ↦
      let same : f ≡ e = ground (arith, lru_step (j, f) m, last) in
      (
        omega (arith, ap (λ (x : Entry). x.recency) same),
        subst (Every (λ j f. e.recency ≤ f.recency)) (sym (lru-none m last)) tt,
      )
  | inr ((i, g), found) ↦ elim (Bool-cases (ltb g.recency f.recency)) [
    | inl later ↦
        let same : g ≡ e = ground (arith, lru_step (j, f) m, found) in
        let le : g.recency ≤ f.recency = ground arith in
        subst (λ x. (x.recency ≤ f.recency) × Every (λ j y. x.recency ≤ y.recency) m) same
          (le, lru-least m i g found)
    | inr earlier ↦
        let same : f ≡ e = ground (arith, lru_step (j, f) m, found) in
        let le : f.recency ≤ g.recency = ground arith in
        subst (λ x. (x.recency ≤ f.recency) × Every (λ j y. x.recency ≤ y.recency) m) same
          (omega arith, Every-from f.recency g.recency m le (lru-least m i g found))
  ]
]

evict_loop_least_recent :
    (r n : ℕ) (s : Store) (k j : Bytes) (e f : Entry)
    → IsValid s
    → lookup k s.entries ≡ some e
    → lookup k (evict_loop r n s).entries ≡ none
    → lookup j (evict_loop r n s).entries ≡ some f
    → e.recency ≤ f.recency
evict_loop_least_recent zero n s k j e f v had = unfold evict_loop in λ gone kept. cc
evict_loop_least_recent (suc r) n s k j e f v had =
    evict_loop_cases
      (λ t. lookup k t.entries ≡ none → lookup j t.entries ≡ some f → e.recency ≤ f.recency) r n s
      (λ _ gone _. cc) (λ _ gone _. cc)
      λ i x victim _ gone kept. elim (Bool-cases (i === k)) [
        | inl same ↦
            let here = lru-lookup s.entries i x v.distinct victim in
            let ik : i ≡ k = (===_iff i k).0 same in
            let xe : x ≡ e = cc in
            subst (λ y. y.recency ≤ f.recency) xe
              (lookup-Every (λ j f. x.recency ≤ f.recency) j s.entries f
                (lru-least s.entries i x victim)
                (remove-lookup i j s f (evict_loop-lookup r n (remove i s).1 j f kept)))
        | inr other ↦
            evict_loop_least_recent r n (remove i s).1 k j e f (remove-IsValid i s v)
              (rw (remove-entries i s, lookup-erase i k s.entries, other) had) gone kept
      ]

-- Whatever evict_until_fits drops was used no later than all that it keeps.
pub evict_until_fits_least_recent :
    (n : ℕ) (s : Store) (k j : Bytes) (e f : Entry)
    → IsValid s
    → lookup k s.entries ≡ some e
    → lookup k (evict_until_fits n s).entries ≡ none
    → lookup j (evict_until_fits n s).entries ≡ some f
    → e.recency ≤ f.recency
unfolding evict_until_fits
evict_until_fits_least_recent n s k j e f v had = elim (Bool-cases (s.max_bytes == 0)) [
  | inl z ↦ rw z (λ gone kept. cc)
  | inr z ↦ rw z (evict_loop_least_recent (length s.entries) n s k j e f v had)
]
