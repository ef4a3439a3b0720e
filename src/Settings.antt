-- ===== src/Settings.antt =====
-- The configuration file, src/utils/config.cpp: lines of `key = value` under section headers.
pub mod Errors
use sovranx.Dict.{lookup, insert}
use sovranx.Prelude.{
  ℕ, zero, suc, ◌+◌, Bool, true, false, not, ◌&&◌, ◌||◌, List, [], ◌∷◌, ◌++◌, map, Option, none,
  some, Bytes, codes, Outcome, ok, throw, length, take, get_or, ◌-◌, leb, ◌==◌, ◌===◌,
  if◌then◌else◌,
}

-- ConfigError, by the place that throws it, with the text and the line it names.
pub data ConfigError : Type 0 where
  unterminated_section expected_key_value : Bytes → ℕ → ConfigError
  empty_section empty_key : ℕ → ConfigError
  missing_key not_boolean : Bytes → ConfigError

-- find_first_not_of and find_last_not_of of " \t\r\n": blanks are dropped at both ends.
abbrev pub is_blank : ℕ → Bool
is_blank c = c == 32 || (c == 9 || (c == 13 || c == 10))

unfoldable pub drop_blank : Bytes → Bytes
drop_blank [] = []
drop_blank (c ∷ s) = if is_blank c then drop_blank s else c ∷ s

unfoldable pub cons_unless_blank : ℕ → Bytes → Bytes
cons_unless_blank c [] = if is_blank c then [] else c ∷ []
cons_unless_blank c (d ∷ s) = c ∷ d ∷ s

unfoldable pub drop_blank_end : Bytes → Bytes
drop_blank_end [] = []
drop_blank_end (c ∷ s) = cons_unless_blank c (drop_blank_end s)

unfoldable pub trim : Bytes → Bytes
trim s = drop_blank_end (drop_blank s)

-- std::getline: a last line without an end counts, an empty one does not.
unfoldable pub put_char : ℕ → List Bytes → List Bytes
put_char c [] = (c ∷ []) ∷ []
put_char c (l ∷ ls) = (c ∷ l) ∷ ls

unfoldable pub lines : Bytes → List Bytes
lines [] = []
lines (c ∷ s) = if c == 10 then [] ∷ lines s else put_char c (lines s)

-- What stands before and behind the first '='.
unfoldable pub put_key : ℕ → Option (Bytes × Bytes) → Option (Bytes × Bytes)
put_key c none = none
put_key c (some (k, v)) = some (c ∷ k, v)

unfoldable pub split_eq : Bytes → Option (Bytes × Bytes)
split_eq [] = none
split_eq (c ∷ s) = if c == b'=' then some ([], s) else put_key c (split_eq s)

-- The parser's state: the current section, and the values.
pub record Config : Type 0 where
  pub section_name : Bytes
  pub values : List (Bytes × Bytes)

unfoldable pub full_key : Bytes → Bytes → Bytes
full_key [] key = key
full_key (c ∷ s) key = (c ∷ s) ++ (b'.' ∷ key)

unfoldable pub set_section : ℕ → Bytes → Config → Outcome ConfigError Config
set_section line_no [] cfg = throw (empty_section line_no)
set_section line_no (c ∷ s) cfg = ok (record cfg { section_name = c ∷ s })

unfoldable pub set_value : ℕ → Bytes → Bytes → Config → Outcome ConfigError Config
set_value line_no [] value cfg = throw (empty_key line_no)
set_value line_no (c ∷ key) value cfg =
    ok (record cfg { values = insert (full_key cfg.section_name (c ∷ key)) value cfg.values })

unfoldable pub parse_assignment :
    ℕ → Bytes → Option (Bytes × Bytes) → Config → Outcome ConfigError Config
parse_assignment line_no t none cfg = throw (expected_key_value t line_no)
parse_assignment line_no t (some (k, v)) cfg = set_value line_no (trim k) (trim v) cfg

-- The body of parse's loop, for a trimmed line.
unfoldable pub parse_line : ℕ → Bytes → Config → Outcome ConfigError Config
parse_line line_no [] cfg = ok cfg
parse_line line_no (c ∷ s) cfg =
    let t = c ∷ s in
    if c == b'#' || c == b';'
    then ok cfg
    else if c == b'['
    then (if get_or t (length t - 1) 0 == b']'
        then set_section line_no (trim (take (length s - 1) s)) cfg
        else throw (unterminated_section t line_no))
    else parse_assignment line_no t (split_eq t) cfg

-- The loop; the lines count from 1.
unfoldable pub parse_lines : ℕ → List Bytes → Config → Outcome ConfigError Config
parse_lines line_no [] cfg = ok cfg
parse_lines line_no (line ∷ rest) cfg = elim (parse_line (suc line_no) (trim line) cfg) [
  | ok next ↦ parse_lines (suc line_no) rest next
  | throw e ↦ throw e
]

-- Config::parse_string.
unfoldable pub parse : Bytes → Outcome ConfigError Config
parse text = parse_lines 0 (lines text) (record { section_name = []; values = [] })

unfoldable pub has : Bytes → Config → Bool
has key cfg = elim (lookup key cfg.values) [ none ↦ false | some v ↦ true ]

unfoldable pub get_string : Bytes → Config → Outcome ConfigError Bytes
get_string key cfg = elim (lookup key cfg.values) [ none ↦ throw (missing_key key) | some v ↦ ok v ]

-- get_string with a default.
unfoldable pub get_string_or : Bytes → Bytes → Config → Outcome ConfigError Bytes
get_string_or key fallback cfg = if has key cfg then get_string key cfg else ok fallback

-- std::tolower of the C locale.
abbrev to_lower_char : ℕ → ℕ
to_lower_char c = if leb b'A' c && leb c b'Z' then c + 32 else c

unfoldable pub to_lower : Bytes → Bytes
to_lower s = map to_lower_char s

unfoldable pub read_bool : Bytes → Bytes → Outcome ConfigError Bool
read_bool key raw =
    if raw === codes "true" || (raw === codes "yes" || (raw === codes "on" || raw === codes "1"))
    then ok true
    else if raw === codes "false"
        || (raw === codes "no" || (raw === codes "off" || raw === codes "0"))
    then ok false
    else throw (not_boolean key)

unfoldable pub get_bool : Bytes → Config → Outcome ConfigError Bool
get_bool key cfg = elim (get_string key cfg) [
  | throw e ↦ throw e
  | ok v ↦ read_bool key (to_lower v)
]

-- get_bool with a default.
unfoldable pub get_bool_or : Bytes → Bool → Config → Outcome ConfigError Bool
get_bool_or key fallback cfg = if has key cfg then get_bool key cfg else ok fallback
