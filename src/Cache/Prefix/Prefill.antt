-- ===== src/Cache/Prefix/Prefill.antt =====
-- What PrefixCache::prefill of src/cache/prefix_cache.cpp leaves in the backend.
use sovranx.Backend.{Backend, IsBackend}
use sovranx.Cache.Prefix.{
  Snapshots, PrefillError, decode_failed, cache_failed, key_for, slice, boundaries, restore_longest,
  decode_marks, prefill,
}
use sovranx.Cache.Prefix.Boundaries.{Climbs, boundaries-Climbs}
use sovranx.Prelude.{
  All, All-append, ℕ, zero, suc, ◌+◌, ◌^◌, ◌≤◌, ◌<◌, ◌≡◌, refl, subst, ap, max, ◌⊎◌, inl, inr, Bool,
  true, false, Bool-cases, List, [], ◌∷◌, Bytes, Outcome, ok, throw, ◌>>=◌, Outcome-cases, length,
  take, take-slice, take-length, leb, ◌==◌, if◌then◌else◌, arith,
}
use mathlib.Core.List.{reverse, reverse-cons}

-- What the prefix cache relies on, for a prompt: in a cache that is good for it, a snapshot that loads
-- under the key of its first n tokens represents exactly those tokens, and the cache stays good for it
-- when such a state is saved. Prefix/Managed shows it of the cache manager.
pub record IsSnapshots (b : Backend) (Holds : b.State → List ℕ → Type 0) (snaps : Snapshots b)
    (tag : Bytes) : Type 1 where
  pub Good : List ℕ → snaps.Cache → Type 0
  pub load_hit :
      (prefix : List ℕ) (n : ℕ) (c c' : snaps.Cache) (st st' : b.State)
      → Good prefix c
      → snaps.load (key_for tag prefix n) c st ≡ (true, c', st')
      → Holds st' (take n prefix)
  pub load_good :
      (prefix : List ℕ) (key : Bytes) (c : snaps.Cache) (st : b.State)
      → Good prefix c
      → Good prefix (snaps.load key c st).1
  pub save_good :
      (prefix : List ℕ) (n : ℕ) (c c' : snaps.Cache) (st : b.State) (saved : Bool)
      → n ≤ length prefix
      → length prefix < 2 ^ 32
      → Good prefix c
      → Holds st (take n prefix)
      → snaps.save (key_for tag prefix n) st n c ≡ ok (saved, c')
      → Good prefix c'

module _ (b : Backend) (Holds : b.State → List ℕ → Type 0) (laws : IsBackend b Holds)
    (snaps : Snapshots b) (tag : Bytes) (good : IsSnapshots b Holds snaps tag) where
  -- After the search: nothing was restored, or the state holds the prompt up to the boundary found.
  restore_longest_lem :
      (prefix : List ℕ) (block size : ℕ) (marks : List ℕ) (c : snaps.Cache) (st : b.State)
      → All (λ m. m ≤ size) marks
      → good.Good prefix c
      → let (found, c', st') = restore_longest b snaps tag block prefix marks c st in
        good.Good prefix c' × (found ≤ size) × ((found ≡ 0) ⊎ Holds st' (take found prefix))
  unfolding restore_longest
  restore_longest_lem prefix block size [] c st below h = (h, omega arith, inl refl)
  restore_longest_lem prefix block size (mark ∷ marks) c st (first, below) h =
      let key = key_for tag prefix mark in
      let r = snaps.load key c st in
      let h' = good.load_good prefix key c st h in
      elim (Bool-cases r.0) [
        | inl hit ↦
            let e : r ≡ (true, r.1, r.2) = ap (λ x. (x, r.1, r.2)) hit in
            rw hit (h', first, inr (good.load_hit prefix mark c r.1 st r.2 h e))
        | inr miss ↦ rw miss (restore_longest_lem prefix block size marks r.1 r.2 below h')
      ]

  -- The loop over the boundaries throws, or it ends with the whole prompt in the state.
  abbrev Ends : List ℕ → Outcome (PrefillError b.Error) (snaps.Cache × b.State) → Type 0
  Ends prefix o =
      ((c : snaps.Cache) × (s : b.State) × (o ≡ ok (c, s)) × Holds s prefix × good.Good prefix c)
      ⊎ ((e : PrefillError b.Error) × (o ≡ throw e))

  Climbs-All :
      (block lo : ℕ) (marks : List ℕ) (size : ℕ)
      → Climbs block lo marks size
      → (lo ≤ size) × All (λ m. m ≤ size) marks
  Climbs-All block lo [] size h = (omega arith, tt)
  Climbs-All block lo (mark ∷ marks) size (up, _, climbs) =
      let (below, rest) = Climbs-All block mark marks size climbs in (omega arith, (below, rest))

  decode_marks_lem :
      (prefix : List ℕ) (block restored pos lo : ℕ) (marks : List ℕ) (c : snaps.Cache)
      (st : b.State)
      → Climbs block lo marks (length prefix)
      → restored ≤ length prefix
      → length prefix < 2 ^ 32
      → pos ≡ max lo restored
      → Holds st (take pos prefix)
      → good.Good prefix c
      → Ends prefix (decode_marks b snaps tag block prefix restored pos marks c st)
  unfolding decode_marks
  decode_marks_lem prefix block restored pos lo [] c st climbs small short p held h =
      inl (c, st, refl, subst (λ l. Holds st l) (take-length pos prefix (omega arith)) held, h)
  decode_marks_lem prefix block restored pos lo (mark ∷ marks) c st (up, wide, climbs) small short p
        held h =
      let under : mark ≤ length prefix = (Climbs-All block mark marks (length prefix) climbs).0 in
      elim (Bool-cases (leb mark restored)) [
        | inl skip ↦
            let p' : pos ≡ max mark restored = ground arith in
            rw skip (
              decode_marks_lem prefix block restored pos mark marks c st climbs small short p' held
                h)
        | inr go ↦
            let below : pos ≤ mark = ground arith in
            let p' : mark ≡ max mark restored = ground arith in
            elim (Outcome-cases (b.decode_append (slice pos mark prefix) st)) [
              | inr (e, failed) ↦ rw (go, failed) (inr (decode_failed e, refl))
              | inl (r, decoded) ↦
                  let held' =
                    laws.append_holds st r.1 r.0 (take pos prefix) (slice pos mark prefix) held
                      decoded in
                  let whole : Holds r.1 (take mark prefix) =
                    subst (λ l. Holds r.1 l) (take-slice pos mark prefix below) held' in
                  elim (Outcome-cases (snaps.save (key_for tag prefix mark) r.1 mark c)) [
                    | inr (e, failed) ↦ rw (go, decoded, failed) (inr (cache_failed e, refl))
                    | inl (saved, done) ↦
                        let h' =
                          good.save_good prefix mark c saved.1 r.1 saved.0 under short h whole
                            done in
                        rw (go, decoded, done)
                          (decode_marks_lem prefix block restored mark mark marks saved.1 r.1 climbs
                            small short p' whole h')
                  ]
            ]
      ]

  All-reverse : (P : ℕ → Type 0) (l : List ℕ) → All P l → All P (reverse l)
  All-reverse P [] h = tt
  All-reverse P (x ∷ l) (p, h) =
      rw (reverse-cons x l) (All-append P (reverse l) (x ∷ []) (All-reverse P l h) (p, tt))

  -- What a prefill ends in: an exception, or a state that represents the whole prompt.
  abbrev pub Prefilled :
      List ℕ → Outcome (PrefillError b.Error) (ℕ × snaps.Cache × b.State) → Type 0
  Prefilled prefix o =
      ((found : ℕ) × (c : snaps.Cache) × (s : b.State) × (o ≡ ok (found, c, s))
        × (found ≤ length prefix)
        × Holds s prefix
        × good.Good prefix c)
      ⊎ ((e : PrefillError b.Error) × (o ≡ throw e))

  finish_prefill :
      (prefix : List ℕ) (found : ℕ) (o : Outcome (PrefillError b.Error) (snaps.Cache × b.State))
      → found ≤ length prefix
      → Ends prefix o
      → Prefilled prefix (o >>= λ (c, s). ok (found, c, s))
  finish_prefill prefix found o small (inl (c, s, e, held, h)) =
      inl (found, c, s, rw e refl, small, held, h)
  finish_prefill prefix found o small (inr (e, failed)) = inr (e, rw failed refl)

  pub prefill-Prefilled :
      (block : ℕ) (prefix : List ℕ) (c : snaps.Cache) (st : b.State)
      → 0 < block
      → length prefix + block ≤ 2 ^ 32
      → good.Good prefix c
      → Prefilled prefix (prefill b snaps tag block prefix c st)
  unfolding prefill
  prefill-Prefilled block [] c st p w h =
      inl (0, c, b.reset st, refl, omega arith, laws.reset_holds st, h)
  prefill-Prefilled block (t ∷ ts) c st p w h =
      let prefix = t ∷ ts in
      let size = length prefix in
      let marks = boundaries block size in
      let climbs = boundaries-Climbs block size p (omega arith) w in
      let below = All-reverse (λ m. m ≤ size) marks (Climbs-All block 0 marks size climbs).1 in
      let found = restore_longest b snaps tag block prefix (reverse marks) c st in
      let (h', small, held) = restore_longest_lem prefix block size (reverse marks) c st below h in
      let start = if found.0 == 0 then b.reset found.2 else found.2 in
      finish_prefill prefix found.0
        (decode_marks b snaps tag block prefix found.0 found.0 marks found.1 start) small
        (decode_marks_lem prefix block found.0 found.0 0 marks found.1 start climbs small
          (omega arith) (omega arith) (started prefix found.0 found.2 held) h')
    where
      started :
          (prefix : List ℕ) (found : ℕ) (s : b.State)
          → ((found ≡ 0) ⊎ Holds s (take found prefix))
          → Holds (if found == 0 then b.reset s else s) (take found prefix)
      started prefix zero s held = laws.reset_holds s
      started prefix (suc found) s (inl absurdly) = absurd (omega arith)
      started prefix (suc found) s (inr held) =
          let e : (suc found == 0) ≡ false = ground arith in rw e held
