-- ===== src/Arca.antt =====
-- ARCA, the shared archive: the RESP wire protocol, the commands, and the daemon's connections.
pub mod Resp
pub mod Archive
pub mod Server
pub mod Client
pub mod Remote
