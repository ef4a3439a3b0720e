-- ===== src/Arca/Remote.antt =====
-- The client of src/arca/client.cpp and the daemon of src/arca/server.cpp together, as the archive that
-- the engine asks, include/reame/core/arca_cache.hpp.
use sovranx.Arca.Archive.{Archive, dispatch}
use sovranx.Arca.Archive.Commands.{dispatch_get-set, dispatch_get-get}
use sovranx.Arca.Client
use sovranx.Arca.Client.{get_request, set_request, read_reply, get_result, answer}
use sovranx.Arca.Client.Replies.{
  Arrives, read_reply-resp_bulk, get_request-encode, set_request-encode,
}
use sovranx.Arca.Resp.{max_bulk_bytes, resp_bulk, resp_simple}
use sovranx.Arca.Resp.RoundTrip.{encode}
use sovranx.Arca.Resp.Sequence.{IsCommand}
use sovranx.Arca.Server.{Connection, serve, dispatch_all}
use sovranx.Arca.Server.Commands.{reading, serve-dispatch_all}
use sovranx.Engine.Replay.{IsArcaCache}
use sovranx.Engine.Stream.{ArcaCache}
use sovranx.Prelude.{
  ◌≤◌, ◌≡◌, sym, ap, ◌∙◌, Bool, true, List, [], ◌∷◌, append-nil, Option, some, Bytes, codes, concat,
  length, arith,
}

-- One request over a new connection, from the slices that the socket makes of it: what the daemon
-- writes, and its archive.
unfoldable pub exchange : (Bytes → Bytes → Bool) → List Bytes → Archive → Bytes × Archive
exchange accepts slices a = let c = serve accepts slices (reading [] a []) in (c.written, c.archive)

-- The client's get and set over the daemon, where nothing is down: `send` is how the socket cuts a request
-- into what the daemon reads at a time, and `cut` how it cuts a reply.
unfoldable pub remote_get :
    (Bytes → Bytes → Bool)
    → (Bytes → List Bytes)
    → (Bytes → List Bytes)
    → Bytes
    → Archive
    → Option Bytes × Archive
remote_get accepts send cut key a =
    let (reply, a') = exchange accepts (send (get_request key)) a in
    ((Client.get true true (cut reply)).0, a')

unfoldable pub remote_set :
    (Bytes → Bytes → Bool) → (Bytes → List Bytes) → Bytes → Bytes → Archive → Archive
remote_set accepts send key value_in a = (exchange accepts (send (set_request key value_in)) a).1

-- As the engine has them.
abbrev pub remote : (Bytes → Bytes → Bool) → (Bytes → List Bytes) → (Bytes → List Bytes) → ArcaCache
remote accepts send cut = record {
  Archive = Archive;
  get = remote_get accepts send cut;
  set = remote_set accepts send;
}

-- A command that a client sends is answered as dispatch answers it, however it is cut.
exchange-encode :
    (accepts : Bytes → Bytes → Bool) (send : Bytes → List Bytes) (cmd : List Bytes) (a : Archive)
    → ((s : Bytes) → concat (send s) ≡ s)
    → IsCommand cmd
    → exchange accepts (send (encode cmd)) a
      ≡ ((dispatch accepts cmd a).0, (dispatch accepts cmd a).1)
unfolding exchange dispatch_all
exchange-encode accepts send cmd a whole h =
    ap (λ (c : Connection). (c.written, c.archive))
      (serve-dispatch_all accepts (send (encode cmd)) (cmd ∷ []) a (h, tt)
        (whole (encode cmd) ∙ sym (append-nil (encode cmd))))
    ∙ ap (λ xs. (xs, (dispatch accepts cmd a).1)) (append-nil (dispatch accepts cmd a).0)

-- The daemon behind the client keeps what it took: once a set was answered with OK, a get of the same key
-- gives the value, byte for byte, however the socket cuts the requests and the reply. Key and value are at
-- most as long as the protocol's limit, the slices are the bytes, and no slice of the reply is empty.
pub remote_get-set :
    (accepts : Bytes → Bytes → Bool) (send cut : Bytes → List Bytes) (key value_in : Bytes)
    (a : Archive)
    → ((s : Bytes) → concat (send s) ≡ s)
    → ((s : Bytes) → concat (cut s) ≡ s)
    → ((s : Bytes) → Arrives (cut s))
    → length key ≤ max_bulk_bytes
    → length value_in ≤ max_bulk_bytes
    → (dispatch accepts (codes "SET" ∷ key ∷ value_in ∷ []) a).0 ≡ resp_simple (codes "OK")
    → let arca = remote accepts send cut in
      (arca.get key (arca.set key value_in a)).0 ≡ some value_in
unfolding remote_get remote_set Client.get get_result
remote_get-set accepts send cut key value_in a sent whole arrives small_key small_value stored =
    let set_cmd = codes "SET" ∷ key ∷ value_in ∷ [] in
    let get_cmd = codes "GET" ∷ key ∷ [] in
    let kept = (dispatch accepts set_cmd a).1 in
    let set_ran : (exchange accepts (send (set_request key value_in)) a).1 ≡ kept =
      ap (λ r. (exchange accepts (send r) a).1) (set_request-encode key value_in)
      ∙ ap (λ x. x.1)
          (exchange-encode accepts send set_cmd a sent (
            record { count = omega arith; sizes = (omega arith, (small_key, (small_value, tt))) },
            omega arith,
          )) in
    let get_ran : (exchange accepts (send (get_request key)) kept).0 ≡ resp_bulk value_in =
      ap (λ r. (exchange accepts (send r) kept).0) (get_request-encode key)
      ∙ ap (λ x. x.0)
          (exchange-encode accepts send get_cmd kept sent
            (record { count = omega arith; sizes = (omega arith, (small_key, tt)) }, omega arith))
      ∙ dispatch_get-set accepts key value_in a (omega (arith, small_key)) stored in
    let read : read_reply (cut (resp_bulk value_in)) ≡ answer (some value_in) =
      read_reply-resp_bulk value_in (cut (resp_bulk value_in)) (omega (arith, small_value))
        (arrives (resp_bulk value_in)) (whole (resp_bulk value_in)) in
    ap (λ a. (Client.get true true (cut (exchange accepts (send (get_request key)) a).0)).0) set_ran
    ∙ ap (λ r. (Client.get true true (cut r)).0) get_ran
    ∙ ap (λ r. (get_result r).0) read

-- The daemon takes a value that is not too long for the protocol, if it answers its set with OK.
abbrev RemoteTakes : (Bytes → Bytes → Bool) → Bytes → Bytes → Archive → Type 0
RemoteTakes accepts key v a =
    (length v ≤ max_bulk_bytes)
    × ((dispatch accepts (codes "SET" ∷ key ∷ v ∷ []) a).0 ≡ resp_simple (codes "OK"))

-- So the daemon behind the client is an archive as the engine needs it.
remote-IsArcaCache :
    (accepts : Bytes → Bytes → Bool) (send cut : Bytes → List Bytes) (key : Bytes)
    → ((s : Bytes) → concat (send s) ≡ s)
    → ((s : Bytes) → concat (cut s) ≡ s)
    → ((s : Bytes) → Arrives (cut s))
    → length key ≤ max_bulk_bytes
    → IsArcaCache (remote accepts send cut) key (RemoteTakes accepts key)
unfolding remote_get
remote-IsArcaCache accepts send cut key sent whole arrives small = record {
  get_set = λ v a (short, stored).
      remote_get-set accepts send cut key v a sent whole arrives small short stored;
  get_get = λ a.
      let get_cmd = codes "GET" ∷ key ∷ [] in
      let ran : (x : Archive)
          → exchange accepts (send (get_request key)) x
            ≡ ((dispatch accepts get_cmd x).0, (dispatch accepts get_cmd x).1) =
        λ x.
          ap (λ r. exchange accepts (send r) x) (get_request-encode key)
          ∙ exchange-encode accepts send get_cmd x sent
              (record { count = omega arith; sizes = (omega arith, (small, tt)) }, omega arith) in
      let result : Bytes → Option Bytes = λ r. (Client.get true true (cut r)).0 in
      ap (λ x. result (exchange accepts (send (get_request key)) x.1).0) (ran a)
      ∙ ap (λ x. result x.0) (ran (dispatch accepts get_cmd a).1)
      ∙ ap result (dispatch_get-get accepts key a)
      ∙ ap (λ x. result x.0) (sym (ran a));
}
