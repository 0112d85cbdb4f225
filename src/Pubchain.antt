-- ===== src/Pubchain.antt =====
-- pubchain/: the public chain's side of the bridge.
pub mod State
pub mod Inbound
pub mod Blocks
pub mod Sending
