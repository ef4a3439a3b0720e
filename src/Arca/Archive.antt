-- ===== src/Arca/Archive.antt =====
-- The commands of the archive, src/arca/archive.cpp, on the store of responses and the corpus.
pub mod Commands
use sovranx.Arca.Resp.{Long, plus, resp_simple, resp_error_reply, resp_integer, resp_bulk, resp_nil}
use sovranx.Cache.Store.{Store, put, get, remove, contains, count}
use sovranx.Corpus.{Corpus, observe, draft}
use sovranx.Decimal.{is_digit, value}
use sovranx.Prelude.{
  ℕ, ◌+◌, ◌-◌, ◌^◌, Bool, true, false, ◌&&◌, ◌||◌, List, [], ◌∷◌, ◌++◌, map, Option, none, some,
  Bytes, codes, leb, ltb, ◌==◌, ◌===◌, if◌then◌else◌,
}
use sovranx.Tokens.{pack_tokens, unpack_tokens}

pub record Archive : Type 0 where
  pub store : Store
  pub corpus : Corpus

-- std::toupper of the C locale.
abbrev to_upper : ℕ → ℕ
to_upper c = if leb b'a' c && leb c b'z' then c - 32 else c

unfoldable pub upper : Bytes → Bytes
upper s = map to_upper s

abbrev pub err_arity : Bytes → Bytes
err_arity name =
    resp_error_reply (codes "ERR wrong number of arguments for '" ++ (name ++ codes "'"))

-- std::stoi: white space, a sign, and digits up to the first other character; none if it throws.
abbrev is_space : ℕ → Bool
is_space c = c == 32 || leb 9 c && leb c 13

unfoldable pub skip_space : Bytes → Bytes
skip_space [] = []
skip_space (c ∷ s) = if is_space c then skip_space s else c ∷ s

unfoldable pub leading_digits : Bytes → Bytes
leading_digits [] = []
leading_digits (c ∷ s) = if is_digit c then c ∷ leading_digits s else []

-- What dispatch reads of the result: the int if it is positive, 0 for the others.
unfoldable int_of : ℕ → Bytes → Option ℕ
int_of limit [] = none
int_of limit (d ∷ ds) = if ltb limit (value 0 (d ∷ ds)) then none else some (value 0 (d ∷ ds))

unfoldable not_positive : Option ℕ → Option ℕ
not_positive none = none
not_positive (some n) = some 0

unfoldable signed_int : Bytes → Option ℕ
unfolding leading_digits int_of not_positive
signed_int [] = none
signed_int (c ∷ s) =
    if c == b'-'
    then not_positive (int_of (2 ^ 31) (leading_digits s))
    else if c == b'+'
    then int_of (2 ^ 31 - 1) (leading_digits s)
    else int_of (2 ^ 31 - 1) (leading_digits (c ∷ s))

unfoldable pub stoi_or_0 : Bytes → Option ℕ
unfolding skip_space signed_int
stoi_or_0 s = signed_int (skip_space s)

-- The branches of dispatch, by the arguments after the command's name. `accepts` says which writes the
-- file system takes.
unfoldable pub set_command : (Bytes → Bytes → Bool) → List Bytes → Archive → Bytes × Archive
set_command accepts (key ∷ data_in ∷ []) a =
    let (stored, store) = put accepts key data_in a.store in
    (
      (if stored
          then resp_simple (codes "OK")
          else resp_error_reply (codes "ERR value larger than the archive budget")),
      record a { store = store },
    )
set_command accepts args a = (err_arity (codes "set"), a)

unfoldable pub get_reply : Option Bytes → Bytes
get_reply none = resp_nil
get_reply (some found) = resp_bulk found

unfoldable pub get_command : List Bytes → Archive → Bytes × Archive
get_command (key ∷ []) a =
    let (found, store) = get key a.store in (get_reply found, record a { store = store })
get_command args a = (err_arity (codes "get"), a)

unfoldable pub del_command : List Bytes → Archive → Bytes × Archive
del_command (key ∷ []) a =
    let (removed, store) = remove key a.store in
    (resp_integer (plus (if removed then 1 else 0)), record a { store = store })
del_command args a = (err_arity (codes "del"), a)

unfoldable pub exists_command : List Bytes → Archive → Bytes × Archive
exists_command (key ∷ []) a = (resp_integer (plus (if contains key a.store then 1 else 0)), a)
exists_command args a = (err_arity (codes "exists"), a)

unfoldable pub dbsize_command : List Bytes → Archive → Bytes × Archive
dbsize_command [] a = (resp_integer (plus (count a.store)), a)
dbsize_command args a = (err_arity (codes "dbsize"), a)

abbrev err_tokens : Bytes
err_tokens = resp_error_reply (codes "ERR token payload must be whole u32s")

unfoldable pub observe_tokens : Option (List ℕ) → Archive → Bytes × Archive
observe_tokens none a = (err_tokens, a)
observe_tokens (some tokens) a =
    (resp_simple (codes "OK"), record a { corpus = observe tokens a.corpus })

unfoldable pub observe_command : List Bytes → Archive → Bytes × Archive
observe_command (payload ∷ []) a = observe_tokens (unpack_tokens payload) a
observe_command args a = (err_arity (codes "arca.observe"), a)

unfoldable pub draft_reply : List ℕ → Bytes
draft_reply [] = resp_nil
draft_reply (t ∷ ts) = resp_bulk (pack_tokens (t ∷ ts))

unfoldable pub draft_tokens : Option (List ℕ) → Option ℕ → Archive → Bytes
draft_tokens none k a = err_tokens
draft_tokens (some tail) none a = resp_error_reply (codes "ERR draft length is not an integer")
draft_tokens (some tail) (some k) a =
    if k == 0
    then resp_error_reply (codes "ERR draft length must be positive")
    else draft_reply (draft tail k a.corpus)

unfoldable pub draft_command : List Bytes → Archive → Bytes × Archive
draft_command (payload ∷ length_in ∷ []) a =
    (draft_tokens (unpack_tokens payload) (stoi_or_0 length_in) a, a)
draft_command args a = (err_arity (codes "arca.draft"), a)

-- Archive::dispatch: the reply, and the archive after it.
unfoldable pub dispatch : (Bytes → Bytes → Bool) → List Bytes → Archive → Bytes × Archive
dispatch accepts [] a = (resp_error_reply (codes "ERR empty command"), a)
dispatch accepts (first ∷ args) a =
    let name = upper first in
    if name === codes "PING"
    then (resp_simple (codes "PONG"), a)
    else if name === codes "SET"
    then set_command accepts args a
    else if name === codes "GET"
    then get_command args a
    else if name === codes "DEL"
    then del_command args a
    else if name === codes "EXISTS"
    then exists_command args a
    else if name === codes "DBSIZE"
    then dbsize_command args a
    else if name === codes "ARCA.OBSERVE"
    then observe_command args a
    else if name === codes "ARCA.DRAFT"
    then draft_command args a
    else (resp_error_reply (codes "ERR unknown command '" ++ (first ++ codes "'")), a)
