-- ===== src/Engine/Replay.antt =====
-- The transparent archive in generate_stream of src/core/engine.cpp.
use sovranx.Backend.{Backend}
use sovranx.Cache.Prefix.{Snapshots}
use sovranx.Engine.{GenerationConfig, cacheable, cache_key}
use sovranx.Engine.Stream.{
  Calls, Engine, ArcaCache, generate_stream_impl, generate_and_set, generate_stream,
}
use sovranx.Prelude.{
  concat, ℕ, ◌≡◌, refl, sym, ap, ◌∙◌, true, not, ◌&&◌, List, [], ◌∷◌, append-nil, none, some, subst,
  Option-cases, inl, inr, Bytes, ok, Outcome-cases, ok-injective, arith,
}

-- What an archive that may refuse a value has to keep to under one key: it answers with a value that it
-- takes, and asking a second time gives the same answer. Arca/Remote shows it of the daemon.
pub record IsArcaCache (arca : ArcaCache) (key : Bytes) (Takes : Bytes → arca.Archive → Type 0)
    : Type 0 where
  pub get_set :
      (v : Bytes) (a : arca.Archive) → Takes v a → (arca.get key (arca.set key v a)).0 ≡ some v
  pub get_get : (a : arca.Archive) → (arca.get key (arca.get key a).1).0 ≡ (arca.get key a).0

some-injective : {A : Type 0} (x y : A) → some x ≡ some y → x ≡ y
some-injective x y e = cc

module _ (b : Backend) (s : Calls b) (snaps : Snapshots b) (tag : Bytes) (block : ℕ)
    (arca : ArcaCache) (hex_hash : Bytes → Bytes) where
  hit :
      (g : GenerationConfig) (prompt text : Bytes) (a : arca.Archive) (e : Engine b snaps)
      → (cacheable g && not g.echo_prompt) ≡ true
      → (arca.get (cache_key hex_hash tag prompt g) a).0 ≡ some text
      → generate_stream b s snaps tag block arca hex_hash g prompt (some a) e
        ≡ ok (text ∷ [], some (arca.get (cache_key hex_hash tag prompt g) a).1, e)
  unfolding generate_stream
  hit g prompt text a e kept found = rw (generate_stream, kept, found) refl

  -- What a deterministic request without an echo has delivered is what the archive, as it leaves it,
  -- answers with: the same request is answered with all of it in one piece, whatever engine of this model
  -- it meets, and that engine is left as it was. That holds for a completion that the client cut short as
  -- well. The archive can be reached, and takes the completion if it had no answer before.
  pub generate_stream-replay :
      (g : GenerationConfig) (prompt : Bytes) (a a' : arca.Archive) (e e' later : Engine b snaps)
      (told : List Bytes) (Takes : Bytes → arca.Archive → Type 0)
      → IsArcaCache arca (cache_key hex_hash tag prompt g) Takes
      → ((arca.get (cache_key hex_hash tag prompt g) a).0 ≡ none
          → Takes (concat told) (arca.get (cache_key hex_hash tag prompt g) a).1)
      → (cacheable g && not g.echo_prompt) ≡ true
      → generate_stream b s snaps tag block arca hex_hash g prompt (some a) e
        ≡ ok (told, some a', e')
      → (a'' : arca.Archive) × (generate_stream b s snaps tag block arca hex_hash g prompt
            (some a')
            later
          ≡ ok (concat told ∷ [], some a'', later))
  unfolding generate_stream generate_and_set
  generate_stream-replay g prompt a a' e e' later told Takes up taken kept ran =
      let key = cache_key hex_hash tag prompt g in
      let answer : (text : Bytes)
          → (arca.get key a').0 ≡ some text
          → text ≡ concat told
          → (a'' : arca.Archive) × (generate_stream b s snaps tag block arca hex_hash g prompt
                (some a') later
              ≡ ok (concat told ∷ [], some a'', later)) =
        λ text found same.
          ((arca.get key a').1, hit g prompt (concat told) a' later kept (found ∙ ap some same)) in
      elim (Option-cases (arca.get key a).0) [
        | inr (text, found) ↦
            let k : ok (text ∷ [], some (arca.get key a).1, e) ≡ ok (told, some a', e') =
              rw (generate_stream, kept, found) at ran in
            let same = ok-injective _ (told, some a', e') k in
            let pieces : text ∷ [] ≡ told = ap (λ x. x.0) same in
            let archive = some-injective (arca.get key a).1 a' (ap (λ x. x.1) same) in
            answer text (ap (λ x. (arca.get key x).0) (sym archive) ∙ up.get_get a ∙ found)
              (sym (append-nil text) ∙ ap concat pieces)
        | inl missed ↦ elim (Outcome-cases (generate_stream_impl b s snaps tag block g prompt e)) [
          | inr (err, threw) ↦ absurd (
              let k = rw (generate_stream, kept, missed, generate_and_set, threw) at ran in
              ground arith)
          | inl (done, made) ↦
              let stored = arca.set key (concat done.0) (arca.get key a).1 in
              let k : ok (done.0, some stored, done.1) ≡ ok (told, some a', e') =
                rw (generate_stream, kept, missed, generate_and_set, made) at ran in
              let same = ok-injective _ (told, some a', e') k in
              let archive = some-injective stored a' (ap (λ x. x.1) same) in
              let text : concat done.0 ≡ concat told = ap (λ x. concat x.0) same in
              answer (concat done.0)
                (ap (λ x. (arca.get key x).0) (sym archive)
                  ∙ up.get_set (concat done.0) (arca.get key a).1
                      (subst (λ v. Takes v (arca.get key a).1) (sym text) (taken missed)))
                text
        ]
      ]
