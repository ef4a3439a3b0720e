-- ===== src/Arca/Server/Commands.antt =====
-- What serve() of src/arca/server.cpp makes of the commands of a client, however the socket cuts them.
use sovranx.Arca.Archive.{Archive, dispatch}
use sovranx.Arca.Resp.{take_ready}
use sovranx.Arca.Resp.RoundTrip.{encode}
use sovranx.Arca.Resp.Sequence.{IsCommand, encode_all, Waits, feed-encode_all}
use sovranx.Arca.Server.{Connection, waiting, dispatch_all, after_feed, serve_slice, serve}
use sovranx.Prelude.{
  ◌≡◌, refl, sym, ap, ◌∙◌, Bool, List, [], ◌∷◌, ◌++◌, append-nil, append_assoc, concat, length,
  length-append, All, Bytes, arith,
}

-- A connection that has read what came, but for the rest `b`.
abbrev pub reading : Bytes → Archive → Bytes → Connection
reading b a out = record {
  status = waiting (record { buf = b; ready = [] });
  archive = a;
  written = out;
}

dispatch_all-append :
    (accepts : Bytes → Bytes → Bool) (cmds more : List (List Bytes)) (a : Archive)
    → let first = dispatch_all accepts cmds a in
      let second = dispatch_all accepts more first.1 in
      dispatch_all accepts (cmds ++ more) a ≡ (first.0 ++ second.0, second.1)
unfolding dispatch_all
dispatch_all-append accepts [] more a = refl
dispatch_all-append accepts (cmd ∷ cmds) more a =
    let (reply, b) = dispatch accepts cmd a in
    let first = dispatch_all accepts cmds b in
    let second = dispatch_all accepts more first.1 in
    ap (λ r. (reply ++ r.0, r.1)) (dispatch_all-append accepts cmds more b)
    ∙ ap (λ xs. (xs, second.1)) (sym (append_assoc reply first.0 second.0))

nothing_left :
    (b : Bytes) (cmds : List (List Bytes))
    → b ≡ encode_all cmds
    → Waits b cmds
    → (b ≡ []) × (cmds ≡ [])
nothing_left b [] e h = (e, refl)
nothing_left b (cmd ∷ cmds) e h =
    absurd (omega (arith, ap length e, length-append (encode cmd) (encode_all cmds), h))

serve-reading :
    (accepts : Bytes → Bytes → Bool) (slices : List Bytes) (b : Bytes) (cmds : List (List Bytes))
    (a : Archive) (out : Bytes)
    → All IsCommand cmds
    → b ++ concat slices ≡ encode_all cmds
    → Waits b cmds
    → let done = dispatch_all accepts cmds a in
      serve accepts slices (reading b a out) ≡ reading [] done.1 (out ++ done.0)
unfolding serve dispatch_all serve_slice after_feed take_ready
serve-reading accepts [] b cmds a out h e waits =
    let (empty, none_left) = nothing_left b cmds (sym (append-nil b) ∙ e) waits in
    rw (empty, none_left) (ap (reading [] a) (sym (append-nil out)))
serve-reading accepts (slice ∷ slices) b cmds a out h e waits =
    let (whole, todo, b', ran, split, left, waits', k) =
      feed-encode_all b slice (concat slices) cmds h (append_assoc b slice (concat slices) ∙ e) in
    let first = dispatch_all accepts whole a in
    let second = dispatch_all accepts todo first.1 in
    let step : serve_slice accepts slice (waiting (record { buf = b; ready = [] }))
          (reading b a out)
        ≡ reading b' first.1 (out ++ first.0) =
      ap (λ r. after_feed accepts r (reading b a out)) ran in
    ap (serve accepts slices) step
    ∙ serve-reading accepts slices b' todo first.1 (out ++ first.0) k left waits'
    ∙ ap (reading [] second.1) (append_assoc out first.0 second.0)
    ∙ ap (λ r. reading [] r.1 (out ++ r.0))
        (sym (dispatch_all-append accepts whole todo a)
          ∙ ap (λ xs. dispatch_all accepts xs a) (sym split))

-- Commands that a client sends one behind the other are each answered once, in order, as dispatch answers
-- them on the archive that the ones before left, however the socket cuts the bytes into slices; the
-- connection then waits with nothing unread. Each command has a word and keeps the protocol's limits.
pub serve-dispatch_all :
    (accepts : Bytes → Bytes → Bool) (slices : List Bytes) (cmds : List (List Bytes)) (a : Archive)
    → All IsCommand cmds
    → concat slices ≡ encode_all cmds
    → let done = dispatch_all accepts cmds a in
      serve accepts slices (reading [] a []) ≡ reading [] done.1 done.0
unfolding serve
serve-dispatch_all accepts slices [] a h e = serve-reading accepts slices [] [] a [] h e tt
serve-dispatch_all accepts slices (cmd ∷ cmds) a h e =
    serve-reading accepts slices [] (cmd ∷ cmds) a [] h e (omega arith)
