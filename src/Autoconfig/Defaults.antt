-- ===== src/Autoconfig/Defaults.antt =====
-- What auto_config of src/core/autoconfig.cpp comes to in an engine.
use sovranx.Autoconfig.{auto_threads, has_slash, directory, base, auto_config}
use sovranx.Engine.{Config, ConfigError, Parts, validate, known_cache_type, assemble}
use sovranx.Engine.Assembly.{validate-IsValid}
use sovranx.Prelude.{
  leb, if◌then◌else◌, ℤ, zero, suc, pos, negsuc, lt_int, le_int, IsPositive, ◌-◌, ℕ, ◌^◌, ◌≤◌, ◌<◌,
  ◌≡◌, max, refl, ap, ◌∙◌, ◌⊎◌, inl, inr, Bool, true, false, Bool-cases, [], ◌∷◌, ◌++◌,
  append_assoc, All, Outcome, ok, ◌&&◌, Bytes, codes, length, length-append, ltb, ◌==◌, ◌===◌,
  arith,
}

-- A thread at least, and no more than there are processors, where any are reported.
abbrev pub Suits : ℕ → ℤ → Type 0
Suits hw threads = (n : ℕ) × (threads ≡ pos n) × (0 < n) × (n ≤ max 1 hw)

auto_threads-Suits : (hw : ℕ) → hw < 2 ^ 31 → Suits hw (auto_threads hw)
unfolding auto_threads
auto_threads-Suits hw h = elim (Bool-cases (hw == 0)) [
  | inl none_reported ↦ (1, rw none_reported refl, omega arith, omega arith)
  | inr reported ↦ elim (Bool-cases (leb hw 4)) [
    | inl few ↦ (hw, rw (reported, few) refl, ground arith, omega arith)
    | inr many ↦
        let small : ltb hw (2 ^ 31) ≡ true = ground arith in
        (hw - 1, rw (reported, many, small) refl, ground arith, omega arith)
  ]
]

Suits-IsPositive : (hw : ℕ) (threads : ℤ) → Suits hw threads → IsPositive threads
Suits-IsPositive hw threads (zero, e, some_thread, few) = absurd (omega arith)
Suits-IsPositive hw threads (suc n, e, some_thread, few) = (n, e)

some_positions : (ctx : ℤ) → IsPositive (if lt_int (pos 0) ctx then ctx else pos 4096)
unfolding lt_int le_int
some_positions (pos zero) = (4095, refl)
some_positions (pos (suc n)) = (n, ground arith)
some_positions (negsuc n) = (4095, refl)

base_length : (model_path home : Bytes) → 8 ≤ length (base model_path home)
unfolding base
base_length model_path home =
    let a = length-append home (codes "/.reame") in
    let b = length-append (directory model_path) (codes "/.reame") in ground arith

abbrev parts : Bool → Bool → Parts
parts d c = record { scheduler = false; cache = true; decoder = d; corpus = c }

decoders :
    (rollback : Bool)
    → ◌≡◌ {A = Outcome ConfigError Parts}
        (ok (parts (rollback && true) (((rollback && true) && true) && true)))
        (ok (parts rollback rollback))
decoders true = refl
decoders false = refl

assemble_alone :
    (c : Config) (rollback : Bool)
    → validate c ≡ ok tt
    → lt_int (pos 1) c.n_parallel ≡ false
    → c.use_speculative ≡ true
    → c.use_prompt_lookup ≡ true
    → (length c.cache_dir == 0) ≡ false
    → assemble rollback false c ≡ ok (parts rollback rollback)
unfolding assemble
assemble_alone c rollback accepted one speculative lookup somewhere =
    rw (assemble, accepted, one, speculative, lookup, somewhere) (decoders rollback)

abbrev pub NoSlash : Bytes → Type 0
NoSlash s = All (λ c. (c == b'/') ≡ false) s

-- Where the cache goes: into the home if there is one, else beside the model if its path has a directory
-- before the last slash, else into the current directory.
pub data Place (model_path home place : Bytes) : Type 0 where
  at_home : 0 < length home → place ≡ home → Place model_path home place
  beside_model :
      (file : Bytes)
      → home ≡ []
      → 0 < length place
      → model_path ≡ place ++ (b'/' ∷ file)
      → NoSlash file
      → Place model_path home place
  current :
      (file : Bytes)
      → home ≡ []
      → place ≡ codes "."
      → (model_path ≡ file) ⊎ (model_path ≡ b'/' ∷ file)
      → NoSlash file
      → Place model_path home place

has_slash-NoSlash : (s : Bytes) → has_slash s ≡ false → NoSlash s
unfolding has_slash
has_slash-NoSlash [] h = tt
has_slash-NoSlash (c ∷ s) h = (ground arith, has_slash-NoSlash s (ground arith))

directory-has_slash :
    (s : Bytes)
    → has_slash s ≡ true
    → (file : Bytes) × (s ≡ directory s ++ (b'/' ∷ file)) × NoSlash file
unfolding has_slash directory
directory-has_slash [] h = absurd (ground arith)
directory-has_slash (c ∷ s) h = elim (Bool-cases (has_slash s)) [
  | inl later ↦
      let (file, split, none_left) = directory-has_slash s later in
      (file, rw later (ap (λ xs. c ∷ xs) split), none_left)
  | inr last ↦
      let slash : c ≡ b'/' = ground arith in
      (s, rw last (ap (λ x. x ∷ s) slash), has_slash-NoSlash s last)
]

directory-flat : (s : Bytes) → has_slash s ≡ false → directory s ≡ []
unfolding has_slash directory
directory-flat [] h = refl
directory-flat (c ∷ s) h = let rest : has_slash s ≡ false = ground arith in rw rest refl

base-Place :
    (model_path home : Bytes)
    → (place : Bytes) × (base model_path home ≡ place ++ codes "/.reame")
      × Place model_path home place
unfolding base
base-Place model_path [] = elim (Bool-cases (has_slash model_path)) [
  | inr flat ↦ (
    codes ".",
    rw (directory-flat model_path flat) refl,
    current model_path refl refl (inl refl) (has_slash-NoSlash model_path flat),
  )
  | inl nested ↦
      let (file, split, none_left) = directory-has_slash model_path nested in
      elim (Bool-cases (length (directory model_path) == 0)) [
        | inl empty ↦ (
          codes ".",
          rw empty refl,
          current file refl refl
              (inr (split ∙ ap (λ xs. xs ++ (b'/' ∷ file)) (nothing (directory model_path) empty)))
              none_left,
        )
        | inr named ↦ (
          directory model_path,
          rw named refl,
          beside_model file refl (ground arith) split none_left,
        )
      ]
]
  where
    nothing : (s : Bytes) → (length s == 0) ≡ true → s ≡ []
    nothing [] e = refl
    nothing (c ∷ s) e = absurd (ground arith)
base-Place model_path (c ∷ home) =
    let named : (length (c ∷ home) == 0) ≡ false = ground arith in
    (c ∷ home, rw named refl, at_home (omega arith) refl)

-- What auto_config makes, for a model and a number of processors that an int holds, is accepted by an
-- engine without a draft model: it serves one request at a time, with the disk cache, and has a decoder
-- and a corpus exactly where the backend can roll back. It takes a thread at least and never more than
-- there are processors, where any are reported. Its cache is in .reame/cache below the home if
-- there is one, else below what stands before the last slash of the model's path, else, where that is
-- empty, below the current directory.
pub auto_config-assemble :
    (model_path home : Bytes) (hw : ℕ) (ctx : ℤ) (rollback : Bool)
    → 0 < length model_path
    → hw < 2 ^ 31
    → (assemble rollback false (auto_config model_path home hw ctx)
        ≡ ok (record { scheduler = false; cache = true; decoder = rollback; corpus = rollback }))
      × Suits hw (auto_config model_path home hw ctx).n_threads
      × ((place : Bytes) × ((auto_config model_path home hw ctx).cache_dir
            ≡ place ++ codes "/.reame/cache")
          × Place model_path home place)
unfolding auto_config known_cache_type ◌===◌
auto_config-assemble model_path home hw ctx rollback some_model fits =
    let c = auto_config model_path home hw ctx in
    let dir = length-append (base model_path home) (codes "/cache") in
    let long = base_length model_path home in
    let threads = auto_threads-Suits hw fits in
    let one : lt_int (pos 1) (pos 1) ≡ false = unfold lt_int in unfold le_int in refl in
    let somewhere : (length c.cache_dir == 0) ≡ false = ground arith in
    let accepted : validate c ≡ ok tt = (validate-IsValid c).1 (record {
      some_model = some_model;
      some_room = some_positions ctx;
      some_thread = Suits-IsPositive hw (auto_threads hw) threads;
      known_type = inr (inl refl);
      some_request = (0, refl);
      alone = inl refl;
    }) in
    (
      assemble_alone c rollback accepted one refl refl somewhere,
      threads,
      let (place, split, where_to) = base-Place model_path home in
          (
            place,
            ap (λ s. s ++ codes "/cache") split
                ∙ append_assoc place (codes "/.reame") (codes "/cache"),
            where_to,
          ),
    )
