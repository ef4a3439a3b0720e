-- ===== src/Arca/Server.antt =====
-- One connection of the daemon, src/arca/server.cpp: serve(), from the slices that the socket delivers.
-- The threads, the socket and its set of connections are not modelled; every write to the socket succeeds.
pub mod Sound
pub mod Commands
use sovranx.Arca.Archive.{Archive, dispatch}
use sovranx.Arca.Resp.{
  resp_error, out_of_range, RespParser, Fed, fed, failed, stuck, feed, take_ready, resp_error_reply,
}
use sovranx.Prelude.{Bool, List, [], ◌∷◌, ◌++◌, Bytes, codes}

-- How far a connection has come: it waits for bytes, serve() has returned, or an exception that serve()
-- does not catch has left its thread.
pub data Status : Type 0 where
  waiting : RespParser → Status
  returned : Status
  terminated : Status

pub record Connection : Type 0 where
  pub status : Status
  pub archive : Archive
  pub written : Bytes

-- The loop over parser.take().
unfoldable pub dispatch_all : (Bytes → Bytes → Bool) → List (List Bytes) → Archive → Bytes × Archive
dispatch_all accepts [] a = ([], a)
dispatch_all accepts (cmd ∷ cmds) a =
    let (reply, b) = dispatch accepts cmd a in
    let (replies, c) = dispatch_all accepts cmds b in (reply ++ replies, c)

-- The body of the loop for a slice, once it is fed.
unfoldable pub after_feed : (Bytes → Bytes → Bool) → Fed → Connection → Connection
after_feed accepts (fed p) c =
    let (cmds, q) = take_ready p in
    let (out, a) = dispatch_all accepts cmds c.archive in
    record { status = waiting q; archive = a; written = c.written ++ out }
after_feed accepts (failed (resp_error message) p) c = record c {
  status = returned;
  written = c.written ++ resp_error_reply (codes "ERR " ++ message);
}
after_feed accepts (failed out_of_range p) c = record c { status = terminated }
after_feed accepts stuck c = c

unfoldable pub serve_slice : (Bytes → Bytes → Bool) → Bytes → Status → Connection → Connection
serve_slice accepts bytes (waiting p) c = after_feed accepts (feed p bytes) c
serve_slice accepts bytes returned c = c
serve_slice accepts bytes terminated c = c

unfoldable pub serve : (Bytes → Bytes → Bool) → List Bytes → Connection → Connection
serve accepts [] c = c
serve accepts (slice ∷ slices) c = serve accepts slices (serve_slice accepts slice c.status c)
