-- ===== src/Tests.antt =====
-- The theorems at concrete inputs, and runs of the program's parts.
mod Fixtures
mod Amounts
mod Signatures
mod Queues
mod Inbound
mod Chains
mod Outbound
mod Loop
mod Turns
mod Mints
mod Starting
mod Members
mod Rotation
mod Signing
