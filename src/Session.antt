-- ===== src/Session.antt =====
-- javascript/mux/session.ts and the methods of channel.ts that reach the session: the channel
-- objects, the table `channels`, what is written, and the promises that are pending.
pub mod State
pub mod Table
pub mod Methods
pub mod Dispatch
pub mod Loop
pub mod Halts
pub mod Invariant
pub mod Keeps
pub mod Preserve
pub mod History
pub mod Routing
pub mod Offer
pub mod Opening
pub mod Shutdown
pub mod Closing
pub mod Hangup
pub mod Oversized
pub mod Ending
pub mod Serving
pub mod Transfer
