-- ===== src/Misc/Signature.antt =====
-- misc/helper.go: a signature as bytes, R and S in 32 bytes each, with the recovery id in one more.
pub mod Layout
pub mod LowS
use oppy_bridge.Common.{
  ℕ, ◌+◌, ◌-◌, ◌/◌, ◌%◌, Bool, true, false, ◌∷◌, ◌++◌, length, if◌then◌else◌, ltb, replicate, take,
  drop,
}
use oppy_bridge.Common.Outcome.{Outcome, done, panics, ◌>>=◌}
use oppy_bridge.Common.Result.{Result, ok, err}
use oppy_bridge.External.{Bytes, Env}
use oppy_bridge.Misc.BigInt.{big_bytes, set_bytes, uint64}

-- `copy(dst[stop-len(src):stop], src)`; a negative bound panics.
unfoldable pub copy_up_to : ℕ → Bytes → Bytes → Outcome Bytes
copy_up_to stop src dst =
    if ltb stop (length src)
    then panics
    else done (take (stop - length src) dst ++ src ++ drop stop dst)

-- `sigBytes[64] = b`
unfoldable pub set_last : Bytes → ℕ → Bytes
set_last bytes b = take 64 bytes ++ b ∷ drop 65 bytes

unfoldable pub make_signature : ℕ → ℕ → ℕ → Outcome Bytes
unfolding copy_up_to set_last
make_signature r s v = do
  with_r ← copy_up_to 32 (big_bytes r) (replicate 65 0)
  with_s ← copy_up_to 64 (big_bytes s) with_r
  done (set_last with_s (uint64 v % 256))

-- keysign.Signature: what base64 decodes of its three texts.
pub record TssSignature : Type 0 where
  pub r : Result Bytes
  pub s : Result Bytes
  pub recovery_id : Result Bytes

module _ (env : Env) where
  -- `S` is replaced by N - S above half the group's order N; Bytes takes the absolute value.
  unfoldable pub low_s : ℕ → ℕ
  low_s s = if ltb (env.curve_order / 2) s then (env.curve_order - s) + (s - env.curve_order) else s

  unfoldable pub write_sig : ℕ → ℕ → ℕ → Bool → Outcome Bytes
  unfolding copy_up_to
  write_sig r s v true = do
    with_r ← copy_up_to 32 (big_bytes r) (replicate 65 0)
    with_s ← copy_up_to 64 (big_bytes s) with_r
    copy_up_to 65 (big_bytes v) with_s
  write_sig r s v false = do
    with_r ← copy_up_to 32 (big_bytes r) (replicate 64 0)
    copy_up_to 64 (big_bytes s) with_r

  abbrev encode_sig : Bytes → Bytes → Bytes → Bool → Outcome (Result Bytes)
  encode_sig r s v need_recovery = do
    bytes ← write_sig (set_bytes r) (low_s (set_bytes s)) (set_bytes v) need_recovery
    done (ok bytes)

  unfoldable pub serialize_sig : TssSignature → Bool → Outcome (Result Bytes)
  unfolding write_sig low_s
  serialize_sig sig need_recovery = elim sig.r [
    | err e ↦ done (err e)
    | ok r ↦ elim sig.s [
      | err e ↦ done (err e)
      | ok s ↦ elim sig.recovery_id [ err e ↦ done (err e) | ok v ↦ encode_sig r s v need_recovery ]
    ]
  ]
