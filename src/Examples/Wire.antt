-- ===== src/Examples/Wire.antt =====
-- The wire protocol and the archive at concrete inputs.
use sovranx.Arca.Archive.{Archive, upper, set_command, dispatch}
use sovranx.Arca.Archive.Commands.{IsArchive, dispatch-IsArchive, dispatch_get-set}
use sovranx.Arca.Client.{read_reply, answer}
use sovranx.Arca.Client.Replies.{Arrives, read_reply-resp_bulk}
use sovranx.Arca.Remote.{remote, remote_get-set}
use sovranx.Arca.Resp.{
  out_of_range, more, threw, crlf, parse_one, RespParser, fed, stuck, feed, resp_simple, resp_bulk,
  long_max,
}
use sovranx.Arca.Resp.Feed.{feed-ne-stuck, feed_slices, feed_slices-concat, observe}
use sovranx.Arca.Resp.RoundTrip.{
  IsRequest, encode, feed-encode, parse_one_truncated, parse_one_out_of_range,
}
use sovranx.Arca.Resp.Sequence.{encode_all}
use sovranx.Arca.Server.{dispatch_all, serve}
use sovranx.Arca.Server.Commands.{reading, serve-dispatch_all}
use sovranx.Cache.Store.{empty, entry_size, evict_until_fits, put}
use sovranx.Cache.Store.Budget.{empty-IsSound}
use sovranx.Decimal.{all_digits, value, to_string}
use sovranx.Prelude.{
  some, concat, ap, ◌∷◌, ◌===◌, ◌<◌, ◌≡◌, ◌≢◌, refl, Bool, true, List, [], ◌++◌, Bytes, codes, drop,
  arith,
}

abbrev no_bytes : RespParser
no_bytes = record { buf = []; ready = [] }

abbrev set_request : List Bytes
set_request = codes "SET" ∷ codes "k" ∷ codes "v" ∷ []

set_request-IsRequest : IsRequest set_request
set_request-IsRequest = record {
  count = omega arith;
  sizes = (omega arith, (omega arith, (omega arith, tt)));
}

feed-ne-stuck_example : feed no_bytes (codes "PING") ≢ stuck
feed-ne-stuck_example = feed-ne-stuck no_bytes (codes "PING")

abbrev rest_of_ping : List Bytes
rest_of_ping = (codes "NG" ++ (b'\r' ∷ [])) ∷ (b'\n' ∷ []) ∷ []

feed_slices-concat_example :
    observe (feed_slices no_bytes (codes "PI" ∷ rest_of_ping))
    ≡ observe (feed no_bytes (codes "PI" ++ concat rest_of_ping))
feed_slices-concat_example = feed_slices-concat no_bytes (codes "PI") rest_of_ping

feed-encode_example :
    feed no_bytes (encode set_request) ≡ fed (record { buf = []; ready = set_request ∷ [] })
feed-encode_example =
    feed-encode [] (codes "SET") (codes "k" ∷ codes "v" ∷ []) set_request-IsRequest

abbrev digits : Bytes
digits = codes "99999999999999999999"

digits_are_digits : all_digits digits ≡ true
unfolding all_digits
digits_are_digits = refl

digits_too_large : long_max < value 0 digits
unfolding value
digits_too_large = omega arith

parse_one_out_of_range_example : parse_one (b'*' ∷ (digits ++ (crlf ++ []))) ≡ threw out_of_range
parse_one_out_of_range_example = parse_one_out_of_range digits [] digits_are_digits digits_too_large

abbrev fresh_archive : Archive
fresh_archive = record {
  store = empty 100;
  corpus = record {
    ngram = 2;
    max_log_bytes = 64;
    max_sites_per_ngram = 8;
    log = [];
    stream_ends = [];
    flushed_streams = 0;
    index = [];
    file = [];
  };
}

fresh_archive-IsArchive : IsArchive fresh_archive
fresh_archive-IsArchive = record { store_sound = empty-IsSound 100; corpus_valid = refl }

abbrev writes : Bytes → Bytes → Bool
writes path content = true

dispatch-IsArchive_example : IsArchive (dispatch writes set_request fresh_archive).1
dispatch-IsArchive_example =
    dispatch-IsArchive writes set_request fresh_archive fresh_archive-IsArchive

set_answered : (dispatch writes set_request fresh_archive).0 ≡ resp_simple (codes "OK")
unfolding dispatch upper ◌===◌ set_command put entry_size empty evict_until_fits
set_answered = refl

dispatch_get-set_example :
    (dispatch writes (codes "GET" ∷ codes "k" ∷ []) (dispatch writes set_request fresh_archive).1).0
    ≡ resp_bulk (codes "v")
dispatch_get-set_example =
    dispatch_get-set writes (codes "k") (codes "v") fresh_archive (omega arith) set_answered

set_front : encode set_request ≡ (b'*' ∷ []) ++ (b'3' ∷ drop 2 (encode set_request))
unfolding to_string
set_front = refl

parse_one_truncated_example : parse_one (b'*' ∷ []) ≡ more
parse_one_truncated_example =
    parse_one_truncated set_request (b'*' ∷ []) (drop 2 (encode set_request)) b'3'
      set_request-IsRequest set_front

-- A socket that delivers one byte at a time.
unfoldable bytewise : Bytes → List Bytes
bytewise [] = []
bytewise (b ∷ s) = (b ∷ []) ∷ bytewise s

concat-bytewise : (s : Bytes) → concat (bytewise s) ≡ s
unfolding bytewise
concat-bytewise [] = refl
concat-bytewise (b ∷ s) = ap (λ xs. b ∷ xs) (concat-bytewise s)

bytewise-Arrives : (s : Bytes) → Arrives (bytewise s)
unfolding bytewise
bytewise-Arrives [] = tt
bytewise-Arrives (b ∷ s) = (omega arith, bytewise-Arrives s)

read_reply-resp_bulk_example :
    read_reply (bytewise (resp_bulk (codes "v"))) ≡ answer (some (codes "v"))
read_reply-resp_bulk_example =
    read_reply-resp_bulk (codes "v") (bytewise (resp_bulk (codes "v"))) (omega arith)
      (bytewise-Arrives (resp_bulk (codes "v"))) (concat-bytewise (resp_bulk (codes "v")))

remote_get-set_example :
    let arca = remote writes bytewise bytewise in
    (arca.get (codes "k") (arca.set (codes "k") (codes "v") fresh_archive)).0 ≡ some (codes "v")
remote_get-set_example =
    remote_get-set writes bytewise bytewise (codes "k") (codes "v") fresh_archive concat-bytewise
      concat-bytewise bytewise-Arrives (omega arith) (omega arith) set_answered

serve-dispatch_all_example :
    let done = dispatch_all writes (set_request ∷ (codes "PING" ∷ []) ∷ []) fresh_archive in
    serve writes
      (bytewise (encode_all (set_request ∷ (codes "PING" ∷ []) ∷ [])))
      (reading [] fresh_archive [])
    ≡ reading [] done.1 done.0
serve-dispatch_all_example =
    let cmds = set_request ∷ (codes "PING" ∷ []) ∷ [] in
    serve-dispatch_all writes (bytewise (encode_all cmds)) cmds fresh_archive
      (
        (set_request-IsRequest, omega arith),
        ((record { count = omega arith; sizes = (omega arith, tt) }, omega arith), tt),
      )
      (concat-bytewise (encode_all cmds))
