-- ===== src/Tests.antt =====
-- The theorems at concrete inputs, and runs of the code.
mod CodecRuns
mod ChannelRuns
mod LegacyRuns
mod QrpcRuns
mod RpcRuns
mod SessionRuns
mod TransportRuns
mod ServerRuns
mod TransferRuns
mod JsonRuns
mod CallRuns
