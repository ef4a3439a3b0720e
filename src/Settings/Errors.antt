-- ===== src/Settings/Errors.antt =====
-- Where src/utils/config.cpp finds fault, and that the lines are read one after the other.
use sovranx.Settings.{
  ConfigError, unterminated_section, expected_key_value, empty_section, empty_key, missing_key,
  not_boolean, trim, lines, split_eq, Config, set_section, set_value, parse_assignment, parse_line,
  parse_lines, parse,
}
use sovranx.Prelude.{
  ℕ, suc, ◌+◌, ◌-◌, ◌≡◌, refl, sym, subst, ap, ◌∙◌, inl, inr, ◌||◌, Bool-cases, List, [], ◌∷◌, ◌++◌,
  Option, none, some, Bytes, Outcome, ok, throw, ◌>>=◌, Outcome-cases, length, get_or, take, ◌==◌,
  arith,
}

-- The line that an error names; 0 for those of the getters.
abbrev pub line_of : ConfigError → ℕ
line_of (unterminated_section t n) = n
line_of (expected_key_value t n) = n
line_of (empty_section n) = n
line_of (empty_key n) = n
line_of (missing_key k) = 0
line_of (not_boolean k) = 0

-- A call that returns, or throws an error of that line.
abbrev Faults : ℕ → Outcome ConfigError Config → Type 0
Faults n (ok c) = Unit
Faults n (throw e) = line_of e ≡ n

set_section-Faults : (n : ℕ) (name : Bytes) (cfg : Config) → Faults n (set_section n name cfg)
unfolding set_section
set_section-Faults n [] cfg = refl
set_section-Faults n (c ∷ s) cfg = tt

set_value-Faults : (n : ℕ) (key value : Bytes) (cfg : Config) → Faults n (set_value n key value cfg)
unfolding set_value
set_value-Faults n [] value cfg = refl
set_value-Faults n (c ∷ s) value cfg = tt

parse_assignment-Faults :
    (n : ℕ) (t : Bytes) (kv : Option (Bytes × Bytes)) (cfg : Config)
    → Faults n (parse_assignment n t kv cfg)
unfolding parse_assignment
parse_assignment-Faults n t none cfg = refl
parse_assignment-Faults n t (some (k, v)) cfg = set_value-Faults n (trim k) (trim v) cfg

parse_line-Faults : (n : ℕ) (t : Bytes) (cfg : Config) → Faults n (parse_line n t cfg)
unfolding parse_line
parse_line-Faults n [] cfg = tt
parse_line-Faults n (c ∷ s) cfg =
    let t = c ∷ s in
    elim (Bool-cases (c == b'#' || c == b';')) [
      | inl comment ↦ rw comment tt
      | inr text ↦ elim (Bool-cases (c == b'[')) [
        | inl header ↦ elim (Bool-cases (get_or t (length t - 1) 0 == b']')) [
          | inl closed ↦
              rw (text, header, closed) (set_section-Faults n (trim (take (length s - 1) s)) cfg)
          | inr open_end ↦ rw (text, header, open_end) refl
        ]
        | inr plain ↦ rw (text, plain) (parse_assignment-Faults n t (split_eq t) cfg)
      ]
    ]

parse_lines-fault :
    (n : ℕ) (ls : List Bytes) (cfg : Config) (e : ConfigError)
    → parse_lines n ls cfg ≡ throw e
    → (before : List Bytes) × (line : Bytes) × (rest : List Bytes) × (next : Config) × (ls
        ≡ before ++ (line ∷ rest))
      × (parse_lines n before cfg ≡ ok next)
      × (parse_line (suc (n + length before)) (trim line) next ≡ throw e)
      × (line_of e ≡ suc (n + length before))
unfolding parse_lines
parse_lines-fault n [] cfg e h = absurd (ground arith)
parse_lines-fault n (l ∷ ls) cfg e h = elim (Outcome-cases (parse_line (suc n) (trim l) cfg)) [
  | inl (next, good) ↦
      let (before, line, rest, last, split, read, threw, number) =
        parse_lines-fault (suc n) ls next e (rw (good, parse_lines) at h) in
      let count : suc n + length before ≡ n + suc (length before) = omega arith in
      (
        l ∷ before,
        line,
        rest,
        last,
        ap (λ xs. l ∷ xs) split,
        rw (good, parse_lines) read,
        subst (λ k. parse_line (suc k) (trim line) last ≡ throw e) count threw,
        omega (arith, number),
      )
  | inr (x, bad) ↦
      let thrown : throw x ≡ throw e = rw (bad, parse_lines) at h in
      let here : line_of x ≡ suc n = rw bad at (parse_line-Faults (suc n) (trim l) cfg) in
      let same : line_of x ≡ line_of e = cc in
      let count : n ≡ n + length {A = Bytes} [] = omega arith in
      (
        [],
        l,
        ls,
        cfg,
        refl,
        refl,
        subst (λ k. parse_line (suc k) (trim l) cfg ≡ throw e) count (bad ∙ thrown),
        omega (arith, sym same ∙ here),
      )
]

-- An error of parse is that of the first faulty line, and names it, counted from 1: the lines before it,
-- blank ones and comments included, are read without fault, and the line by itself, behind them, gives
-- the error.
pub parse-line_of :
    (text : Bytes) (e : ConfigError)
    → parse text ≡ throw e
    → (before : List Bytes) × (line : Bytes) × (rest : List Bytes) × (next : Config) × (lines text
        ≡ before ++ (line ∷ rest))
      × (parse_lines 0 before (record { section_name = []; values = [] }) ≡ ok next)
      × (parse_line (suc (length before)) (trim line) next ≡ throw e)
      × (line_of e ≡ suc (length before))
unfolding parse
parse-line_of text e h =
    let (before, line, rest, next, split, read, threw, number) =
      parse_lines-fault 0 (lines text) (record { section_name = []; values = [] }) e h in
    let count : 0 + length before ≡ length before = omega arith in
    (
      before,
      line,
      rest,
      next,
      split,
      read,
      subst (λ k. parse_line (suc k) (trim line) next ≡ throw e) count threw,
      omega (arith, number),
    )

-- Lines that are read in two parts are read as at once: the second part goes on from the section and the
-- values of the first, and the first error ends the parse.
pub parse_lines-append :
    (n : ℕ) (ls ms : List Bytes) (cfg : Config)
    → parse_lines n (ls ++ ms) cfg
      ≡ (parse_lines n ls cfg >>= λ next. parse_lines (n + length ls) ms next)
unfolding parse_lines
parse_lines-append n [] ms cfg = ap (λ k. parse_lines k ms cfg) (omega arith)
parse_lines-append n (l ∷ ls) ms cfg = elim (Outcome-cases (parse_line (suc n) (trim l) cfg)) [
  | inl (next, good) ↦
      let count : suc n + length ls ≡ n + suc (length ls) = omega arith in
      let rest = parse_lines-append (suc n) ls ms next in
      rw (good, parse_lines) (rest ∙ rw count refl)
  | inr (x, bad) ↦ rw (bad, parse_lines)
]
