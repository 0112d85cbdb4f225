-- ===== src/Misc.antt =====
-- misc/helper.go: key and address conversions, signatures as bytes, the recovery id.
pub mod Keys
pub mod Signature
pub mod RecoveryId
pub mod BigInt
