-- ===== src/Legacy.antt =====
-- javascript/legacy/qmux/src/qmux.ts, the implementation before javascript/mux, where it differs.
pub mod Packets
pub mod Interop
pub mod Table
pub mod Writes
pub mod Channel
pub mod Qrpc
pub mod Session
pub mod Conn
pub mod Tcp
pub mod Listener
