-- ===== src/Rpc.antt =====
-- javascript/rpc: calls over a session's channels.
pub mod Text
pub mod Utf8
pub mod Json
pub mod Call
pub mod Mux
pub mod Frame
pub mod Exchange
pub mod Wire
pub mod Peer
