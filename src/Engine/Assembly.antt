-- ===== src/Engine/Assembly.antt =====
-- Which configurations the engine of src/core/engine.cpp accepts, and what they put together.
use sovranx.Engine.{Config, known_cache_type, validate, Parts, assemble, parallel_with_draft_model}
use sovranx.Prelude.{
  pos, lt_int, IsPositive, le_int-IsPositive, lt_int-IsPositive, lt_int-one, ===_iff, codes, Bytes,
  ◌<◌, ◌≡◌, ◌↔◌, ◌⊎◌, inl, inr, Bool, true, false, not, ◌&&◌, ◌||◌, ok, throw, Outcome-cases,
  ok-injective, length, ◌==◌, refl, subst, if◌then◌else◌, arith,
}

-- The types of a cache that the engine knows.
abbrev pub IsCacheType : Bytes → Type 0
IsCacheType t = (t ≡ codes "f16") ⊎ ((t ≡ codes "q8_0") ⊎ (t ≡ codes "q4_0"))

known_cache_type-IsCacheType : (t : Bytes) → (known_cache_type t ≡ true) ↔ IsCacheType t
unfolding known_cache_type
known_cache_type-IsCacheType t =
    ground (arith, ===_iff t (codes "f16"), ===_iff t (codes "q8_0"), ===_iff t (codes "q4_0"))

-- A configuration that makes sense: a model, positive numbers of positions, threads and requests, a known
-- cache type, and parallel serving without speculation and without the disk cache.
pub record IsValid (c : Config) : Type 0 where
  pub some_model : 0 < length c.model_path
  pub some_room : IsPositive c.n_ctx
  pub some_thread : IsPositive c.n_threads
  pub known_type : IsCacheType c.kv_cache_type
  pub some_request : IsPositive c.n_parallel
  pub alone :
      (c.n_parallel ≡ pos 1)
      ⊎ ((c.use_prompt_lookup ≡ false) × (length c.draft_model_path ≡ 0) × (length c.cache_dir ≡ 0))

-- validate accepts exactly the configurations with a model, positive numbers of positions, threads and
-- parallel requests, one of the cache types f16, q8_0 and q4_0, and more than one request at a time only
-- without speculation and without the disk cache.
pub validate-IsValid : (c : Config) → (validate c ≡ ok tt) ↔ IsValid c
unfolding validate
validate-IsValid c =
    let room = le_int-IsPositive c.n_ctx in
    let threads = le_int-IsPositive c.n_threads in
    let requests = lt_int-IsPositive c.n_parallel in
    let known = known_cache_type-IsCacheType c.kv_cache_type in
    (
      λ h.
          let request = requests.0 (ground (arith, h)) in
          let alone : (lt_int (pos 1) c.n_parallel ≡ false)
              ⊎ ((c.use_prompt_lookup ≡ false)
                  × (length c.draft_model_path ≡ 0)
                  × (length c.cache_dir ≡ 0)) =
            ground (arith, h) in
          record {
            some_model = ground (arith, h);
            some_room = room.0 (ground (arith, h));
            some_thread = threads.0 (ground (arith, h));
            known_type = known.0 (ground (arith, h));
            some_request = request;
            alone = elim alone [
              | inl one ↦ inl ((lt_int-one c.n_parallel request).0 one)
              | inr quiet ↦ inr quiet
            ];
          },
      λ h.
          let a = h.some_model in
          let b = room.1 h.some_room in
          let d = threads.1 h.some_thread in
          let e = known.1 h.known_type in
          let f = requests.1 h.some_request in
          let g : (lt_int (pos 1) c.n_parallel ≡ false)
              ⊎ ((c.use_prompt_lookup ≡ false)
                  × (length c.draft_model_path ≡ 0)
                  × (length c.cache_dir ≡ 0)) =
            elim h.alone [
              | inl one ↦ inl ((lt_int-one c.n_parallel h.some_request).1 one)
              | inr quiet ↦ inr quiet
            ] in
          ground arith,
    )

-- An engine that is put together has a valid configuration, with a scheduler it has neither the disk
-- cache nor a decoder, a decoder only where the backend can roll back, and a corpus only beside a decoder
-- and the disk cache.
pub assemble-IsValid :
    (rollback draft : Bool) (c : Config) (p : Parts)
    → assemble rollback draft c ≡ ok p
    → IsValid c
      × ((p.scheduler && (p.cache || p.decoder || p.corpus)) ≡ false)
      × ((p.decoder && not rollback) ≡ false)
      × ((p.corpus && not (p.decoder && p.cache)) ≡ false)
unfolding assemble
assemble-IsValid rollback draft c p h = elim (Outcome-cases (validate c)) [
  | inr (e, refused) ↦ absurd (let k = rw (assemble, refused) at h in ground arith)
  | inl (checked, accepted) ↦
      let (a, b, d) =
        choose (lt_int (pos 1) c.n_parallel && draft) (lt_int (pos 1) c.n_parallel)
          (not (length c.cache_dir == 0)) rollback (draft || c.use_prompt_lookup) c.use_speculative
          c.use_prompt_lookup (rw (assemble, accepted) at h) in
      ((validate-IsValid c).0 accepted, a, b, d)
]
  where
    choose :
        (both parallel cache rolls drafts speculative lookup : Bool)
        → (if both
            then throw parallel_with_draft_model
            else if parallel
            then ok (record { scheduler = true; cache = false; decoder = false; corpus = false })
            else ok (record {
              scheduler = false;
              cache = cache;
              decoder = speculative && rolls && drafts;
              corpus = (speculative && rolls && drafts) && lookup && cache;
            }))
          ≡ ok p
        → ((p.scheduler && (p.cache || p.decoder || p.corpus)) ≡ false)
          × ((p.decoder && not rolls) ≡ false)
          × ((p.corpus && not (p.decoder && p.cache)) ≡ false)
    choose true parallel cache rolls drafts speculative lookup h = absurd (ground arith)
    choose false true cache rolls drafts speculative lookup h =
        subst
          (λ p.
            ((p.scheduler && (p.cache || p.decoder || p.corpus)) ≡ false)
            × ((p.decoder && not rolls) ≡ false)
            × ((p.corpus && not (p.decoder && p.cache)) ≡ false))
          (ok-injective _ p h) (refl, refl, refl)
    choose false false cache rolls drafts speculative lookup h =
        subst
          (λ p.
            ((p.scheduler && (p.cache || p.decoder || p.corpus)) ≡ false)
            × ((p.decoder && not rolls) ≡ false)
            × ((p.corpus && not (p.decoder && p.cache)) ≡ false))
          (ok-injective _ p h) (refl, ground arith, ground arith)
