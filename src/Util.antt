-- ===== src/Util.antt =====
-- javascript/mux/util.ts: `concat` and the `queue` class.
pub mod Concat
pub mod Queue
