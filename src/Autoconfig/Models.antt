-- ===== src/Autoconfig/Models.antt =====
-- How resolve_model of src/core/autoconfig.cpp finds a model.
use sovranx.Autoconfig.{
  ModelSpec, model_catalog, starts_with, exact_alias, sole_prefix, or_else, resolve_model,
}
use sovranx.Http.{lower}
use sovranx.Prelude.{
  ◌≡◌, refl, ap₂, inl, inr, Bool, Bool-cases, List, [], ◌∷◌, Option, none, some, Bytes, ◌===◌,
  if◌then◌else◌,
}

unfoldable pub keep : (ModelSpec → Bool) → List ModelSpec → List ModelSpec
keep p [] = []
keep p (m ∷ ms) = let kept = keep p ms in if p m then m ∷ kept else kept

unfoldable pub first : List ModelSpec → Option ModelSpec
first [] = none
first (m ∷ ms) = some m

unfoldable pub sole : List ModelSpec → Option ModelSpec
sole [] = none
sole (m ∷ []) = some m
sole (m ∷ (m' ∷ ms)) = none

-- The entries with an alias, and those that an abbreviation may stand for.
abbrev pub named : Bytes → List ModelSpec → List ModelSpec
named t = keep (λ m. lower m.name === t)

abbrev pub candidates : Bytes → List ModelSpec → List ModelSpec
candidates t = keep (λ m. starts_with t (lower m.name))

exact_alias-first : (t : Bytes) (ms : List ModelSpec) → exact_alias t ms ≡ first (named t ms)
unfolding exact_alias first keep
exact_alias-first t [] = refl
exact_alias-first t (m ∷ ms) = elim (Bool-cases (lower m.name === t)) [
  | inl e ↦ rw (e) refl
  | inr e ↦ rw (e) (exact_alias-first t ms)
]

sole_prefix_again :
    (t : Bytes) (old : ModelSpec) (ms : List ModelSpec)
    → sole_prefix t (some old) ms ≡ sole (old ∷ candidates t ms)
unfolding sole_prefix sole keep
sole_prefix_again t old [] = refl
sole_prefix_again t old (m ∷ ms) = elim (Bool-cases (starts_with t (lower m.name))) [
  | inl e ↦ rw (e) refl
  | inr e ↦ rw (e) (sole_prefix_again t old ms)
]

sole_prefix-sole :
    (t : Bytes) (ms : List ModelSpec) → sole_prefix t none ms ≡ sole (candidates t ms)
unfolding sole_prefix sole keep
sole_prefix-sole t [] = refl
sole_prefix-sole t (m ∷ ms) = elim (Bool-cases (starts_with t (lower m.name))) [
  | inl e ↦ rw (e) (sole_prefix_again t m ms)
  | inr e ↦ rw (e) (sole_prefix-sole t ms)
]

-- resolve_model gives the first entry of the catalog whose alias is the token but for the case of its
-- letters; where there is none, the entry whose alias starts with the token, if it is the only one; and
-- nothing otherwise.
pub resolve_model-or_else :
    (token : Bytes)
    → let t = lower token in
      resolve_model token
      ≡ or_else (first (named t model_catalog)) (sole (candidates t model_catalog))
unfolding resolve_model
resolve_model-or_else token =
    let t = lower token in
    ap₂ or_else (exact_alias-first t model_catalog) (sole_prefix-sole t model_catalog)
