-- ===== src/Tests/Signatures.antt =====
-- misc/helper.go at concrete inputs.
use oppy_bridge.Common.{
  ◌+◌, ◌*◌, ◌/◌, ◌%◌, ◌≤◌, ◌≡◌, refl, ◌⊎◌, true, [], ◌∷◌, arith, nat_key, string_key, bytes_key,
  take, drop,
}
use oppy_bridge.Common.Outcome.{done}
use oppy_bridge.Common.Result.{ok}
use oppy_bridge.External.{Bytes}
use oppy_bridge.Misc.BigInt.{set_bytes, uint64}
use oppy_bridge.Misc.RecoveryId.{recover_rec_id, recover_rec_id_forms}
use oppy_bridge.Misc.Signature.{TssSignature, make_signature, serialize_sig}
use oppy_bridge.Misc.Signature.Layout.{make_signature_reads_back}
use oppy_bridge.Misc.Signature.LowS.{serialize_sig_low}
use oppy_bridge.Tests.Fixtures.{toy_env}

recover_rec_id_forms_example :
    (recover_rec_id 56 (35 + 2 * 56 + 1) ≡ 1)
    × (recover_rec_id 56 (27 + 1) ≡ 1)
    × (recover_rec_id 56 1 ≡ 1)
recover_rec_id_forms_example = recover_rec_id_forms 56 1 (omega arith) (omega arith)

make_signature_reads_back_example :
    (sig : Bytes) × (make_signature 258 3 1 ≡ done sig)
    × (set_bytes (take 32 sig) ≡ 258)
    × (set_bytes (take 32 (drop 32 sig)) ≡ 3)
    × (drop 64 sig ≡ uint64 1 % 256 ∷ [])
make_signature_reads_back_example = make_signature_reads_back 258 3 1 (omega arith) (omega arith)

abbrev tss_signature : TssSignature
tss_signature = record { r = ok (1 ∷ 2 ∷ []); s = ok (99 ∷ []); recovery_id = ok (1 ∷ []) }

serialize_sig_low_example :
    (out : Bytes) × (serialize_sig toy_env tss_signature true ≡ done (ok out))
    × (set_bytes (take 32 out) ≡ set_bytes (1 ∷ 2 ∷ []))
    × (set_bytes (take 32 (drop 32 out)) ≤ 101 / 2)
    × ((set_bytes (take 32 (drop 32 out)) ≡ set_bytes (99 ∷ []))
        ⊎ (set_bytes (take 32 (drop 32 out)) + set_bytes (99 ∷ []) ≡ 101))
    × (set_bytes (drop 64 out) ≡ set_bytes (1 ∷ []))
unfolding set_bytes
serialize_sig_low_example =
    serialize_sig_low toy_env tss_signature (1 ∷ 2 ∷ []) (99 ∷ []) (1 ∷ []) true refl refl refl
      (omega arith) (omega arith) (omega arith) (omega arith)
