-- ===== src/Arca/Client.antt =====
-- The archive's client, src/arca/client.cpp: what it sends, and how it reads a reply from the slices that
-- the socket delivers. A list of slices ends where a read fails; an empty slice is a failed read as well.
pub mod Replies
use sovranx.Arca.Archive.{skip_space, leading_digits}
use sovranx.Arca.Resp.{Long, plus, minus, long_max, crlf, split_crlf, resp_bulk}
use sovranx.Decimal.{value}
use sovranx.Prelude.{
  ℕ, ◌+◌, ◌-◌, Bool, true, false, List, [], ◌∷◌, ◌++◌, Option, none, some, Bytes, codes, length,
  take, drop, ltb, leb, ◌==◌, if◌then◌else◌,
}

unfoldable pub get_request : Bytes → Bytes
get_request key =
    codes "*2" ++ (crlf ++ (codes "$3" ++ (crlf ++ (codes "GET" ++ (crlf ++ resp_bulk key)))))

unfoldable pub set_request : Bytes → Bytes → Bytes
set_request key value_in =
    codes "*3"
    ++ (crlf
        ++ (codes "$3"
            ++ (crlf ++ (codes "SET" ++ (crlf ++ (resp_bulk key ++ resp_bulk value_in))))))

-- How a read ends: it fails, an exception is thrown, or there is an answer, which may be none.
pub data Reply : Type 0 where
  io_failed : Reply
  excepted : Reply
  answer : Option Bytes → Reply

unfoldable pub has_crlf : Option (Bytes × Bytes) → Bool
has_crlf none = false
has_crlf (some found) = true

-- fill_until_crlf with recv_more: the buffer, and the slices that are left.
unfoldable pub fill_until_crlf : Bytes → List Bytes → Option (Bytes × List Bytes)
fill_until_crlf buf [] = if has_crlf (split_crlf buf) then some (buf, []) else none
fill_until_crlf buf (slice ∷ slices) =
    let more = fill_until_crlf (buf ++ slice) slices in
    if has_crlf (split_crlf buf)
    then some (buf, slice ∷ slices)
    else if length slice == 0
    then none
    else more

-- while (buf.size() < need) recv_more.
unfoldable pub fill_until : ℕ → Bytes → List Bytes → Option Bytes
fill_until need buf [] = if ltb (length buf) need then none else some buf
fill_until need buf (slice ∷ slices) =
    let more = fill_until need (buf ++ slice) slices in
    if ltb (length buf) need then (if length slice == 0 then none else more) else some buf

-- std::stol: digits behind white space and a sign, up to the first other byte; none if it throws.
unfoldable pub stol_magnitude : ℕ → Bytes → Option ℕ
stol_magnitude limit [] = none
stol_magnitude limit (d ∷ ds) =
    if ltb limit (value 0 (d ∷ ds)) then none else some (value 0 (d ∷ ds))

unfoldable pub negated : Option ℕ → Option Long
negated none = none
negated (some n) = if n == 0 then some (plus 0) else some (minus (n - 1))

unfoldable pub positive : Option ℕ → Option Long
positive none = none
positive (some n) = some (plus n)

unfoldable pub stol_signed : Bytes → Option Long
stol_signed [] = none
stol_signed (c ∷ s) =
    if c == b'-'
    then negated (stol_magnitude (long_max + 1) (leading_digits s))
    else if c == b'+'
    then positive (stol_magnitude long_max (leading_digits s))
    else positive (stol_magnitude long_max (leading_digits (c ∷ s)))

unfoldable pub stol : Bytes → Option Long
stol s = stol_signed (skip_space s)

-- The payload of a bulk string, once there is enough: behind the line's end at `eol`.
unfoldable pub payload : ℕ → ℕ → Option Bytes → Reply
payload eol n none = io_failed
payload eol n (some buf) = answer (some (take n (drop (eol + 2) buf)))

unfoldable pub read_bulk : Option Long → ℕ → Bytes → List Bytes → Reply
read_bulk none eol buf slices = excepted
read_bulk (some (minus n)) eol buf slices = answer none
read_bulk (some (plus n)) eol buf slices = payload eol n (fill_until (eol + 2 + n + 2) buf slices)

-- The reply's type is the first byte of its line.
unfoldable pub read_line : Bytes → Bytes → List Bytes → Reply
read_line [] buf slices = answer none
read_line (type ∷ head) buf slices =
    if type == b'+'
    then answer (some [])
    else if type == b'-'
    then answer none
    else if type == b'$'
    then read_bulk (stol head) (length (type ∷ head)) buf slices
    else answer none

unfoldable pub line_of : Option (Bytes × Bytes) → Bytes
line_of none = []
line_of (some (line, rest)) = line

unfoldable pub read_reply : List Bytes → Reply
read_reply slices = elim (fill_until_crlf [] slices) [
  | none ↦ io_failed
  | some filled ↦ read_line (line_of (split_crlf filled.0)) filled.0 filled.1
]

-- get behind the connection and the write: its result, and whether the connection is kept.
unfoldable pub get_result : Reply → Option Bytes × Bool
get_result io_failed = (none, false)
get_result excepted = (none, false)
get_result (answer found) = (found, true)

-- get and set: whether the client is connected in time, whether the write succeeds, and the slices that
-- come back.
unfoldable pub get : Bool → Bool → List Bytes → Option Bytes × Bool
get up written slices =
    if up
    then (if written then get_result (read_reply slices) else (none, false))
    else (none, false)

unfoldable pub set : Bool → Bool → List Bytes → Bool
set up written slices =
    if up then (if written then (get_result (read_reply slices)).1 else false) else false
