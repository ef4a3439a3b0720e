-- ===== src/Arca/Server/Sound.antt =====
-- That serve() of src/arca/server.cpp leaves the archive sound.
use sovranx.Arca.Archive.{Archive, dispatch}
use sovranx.Arca.Archive.Commands.{IsArchive, dispatch-IsArchive}
use sovranx.Arca.Resp.{resp_error, out_of_range, Fed, fed, failed, stuck, feed, take_ready}
use sovranx.Arca.Server.{
  Status, waiting, returned, terminated, Connection, dispatch_all, after_feed, serve_slice, serve,
}
use sovranx.Prelude.{Bool, List, [], ◌∷◌, Bytes}

dispatch_all-IsArchive :
    (accepts : Bytes → Bytes → Bool) (cmds : List (List Bytes)) (a : Archive)
    → IsArchive a
    → IsArchive (dispatch_all accepts cmds a).1
unfolding dispatch_all
dispatch_all-IsArchive accepts [] a h = h
dispatch_all-IsArchive accepts (cmd ∷ cmds) a h =
    dispatch_all-IsArchive accepts cmds (dispatch accepts cmd a).1
      (dispatch-IsArchive accepts cmd a h)

after_feed-IsArchive :
    (accepts : Bytes → Bytes → Bool) (r : Fed) (c : Connection)
    → IsArchive c.archive
    → IsArchive (after_feed accepts r c).archive
unfolding after_feed
after_feed-IsArchive accepts (fed p) c h =
    dispatch_all-IsArchive accepts (take_ready p).0 c.archive h
after_feed-IsArchive accepts (failed (resp_error message) p) c h = h
after_feed-IsArchive accepts (failed out_of_range p) c h = h
after_feed-IsArchive accepts stuck c h = h

serve_slice-IsArchive :
    (accepts : Bytes → Bytes → Bool) (bytes : Bytes) (status : Status) (c : Connection)
    → IsArchive c.archive
    → IsArchive (serve_slice accepts bytes status c).archive
unfolding serve_slice
serve_slice-IsArchive accepts bytes (waiting p) c h =
    after_feed-IsArchive accepts (feed p bytes) c h
serve_slice-IsArchive accepts bytes returned c h = h
serve_slice-IsArchive accepts bytes terminated c h = h

-- Whatever bytes a client sends, in whatever slices they arrive, a sound archive stays sound.
pub serve-IsArchive :
    (accepts : Bytes → Bytes → Bool) (slices : List Bytes) (c : Connection)
    → IsArchive c.archive
    → IsArchive (serve accepts slices c).archive
unfolding serve
serve-IsArchive accepts [] c h = h
serve-IsArchive accepts (slice ∷ slices) c h =
    serve-IsArchive accepts slices (serve_slice accepts slice c.status c)
      (serve_slice-IsArchive accepts slice c.status c h)
