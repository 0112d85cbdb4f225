-- ===== src/Misc/Signature/LowS.antt =====
-- misc/helper.go: SerializeSig writes a signature of the threshold signers with its S in the low half
-- of the group's order.
use mathlib.Core.List.{append_assoc, append-nil}
use oppy_bridge.Common.{
  ℕ, ◌+◌, ◌/◌, ◌^◌, ◌≤◌, ◌<◌, ◌≡◌, refl, ap, ◌∙◌, Bool, true, false, [], ◌++◌, arith, if◌then◌else◌,
  take, drop, ◌⊎◌,
}
use oppy_bridge.Common.Outcome.{done}
use oppy_bridge.Common.Result.{ok}
use oppy_bridge.External.{Bytes, Env}
use oppy_bridge.Misc.BigInt.{big_bytes, set_bytes, length-big_bytes}
use oppy_bridge.Misc.Signature.{TssSignature, low_s, write_sig, serialize_sig}
use oppy_bridge.Misc.Signature.Layout.{
  pad, copy_up_to-pad, layout_r, layout_s, layout_rest, length-pad, length-big_bytes32,
  set_bytes-pad, length-two_pads,
}

write_sig-false :
    (env : Env) (r s v : ℕ)
    → r < 2 ^ 256
    → s < 2 ^ 256
    → write_sig env r s v false ≡ done (pad 32 (big_bytes r) ++ pad 32 (big_bytes s) ++ [])
unfolding write_sig
write_sig-false env r s v hr hs = rw (
  copy_up_to-pad 32 32 32 [] (big_bytes r) (length-big_bytes32 r hr) refl,
  copy_up_to-pad 32 0 64 (pad 32 (big_bytes r)) (big_bytes s) (length-big_bytes32 s hs)
      (omega (arith, length-pad 32 (big_bytes r) (length-big_bytes32 r hr))),
)

write_sig-true :
    (env : Env) (r s v : ℕ)
    → r < 2 ^ 256
    → s < 2 ^ 256
    → v < 256
    → write_sig env r s v true
      ≡ done (pad 32 (big_bytes r) ++ pad 32 (big_bytes s) ++ (pad 1 (big_bytes v) ++ []))
unfolding write_sig
write_sig-true env r s v hr hs hv =
    rw
      (
        copy_up_to-pad 32 33 32 [] (big_bytes r) (length-big_bytes32 r hr) refl,
        copy_up_to-pad 32 1 64 (pad 32 (big_bytes r)) (big_bytes s) (length-big_bytes32 s hs)
            (omega (arith, length-pad 32 (big_bytes r) (length-big_bytes32 r hr))),
        copy_up_to-pad 1 0 65 (pad 32 (big_bytes r) ++ pad 32 (big_bytes s)) (big_bytes v)
            (length-big_bytes v 1 hv) (omega (arith, length-two_pads r s hr hs)),
      )
      (ap done
        (append_assoc (pad 32 (big_bytes r) ++ pad 32 (big_bytes s)) (pad 1 (big_bytes v)) []))

low_s-le :
    (env : Env) (s : ℕ)
    → s < env.curve_order
    → (low_s env s ≤ env.curve_order / 2)
      × ((low_s env s ≡ s) ⊎ (low_s env s + s ≡ env.curve_order))
unfolding low_s
low_s-le env s h = ground arith

-- The bytes after R and S: none, or the recovery id.
abbrev sig_rest : Bool → ℕ → Bytes
sig_rest true v = pad 1 (big_bytes v) ++ []
sig_rest false v = []

write_sig_lem :
    (env : Env) (r s v : ℕ) (need_recovery : Bool)
    → r < 2 ^ 256
    → s < 2 ^ 256
    → v < 256
    → write_sig env r s v need_recovery
      ≡ done (pad 32 (big_bytes r) ++ pad 32 (big_bytes s) ++ sig_rest need_recovery v)
write_sig_lem env r s v true hr hs hv = write_sig-true env r s v hr hs hv
write_sig_lem env r s v false hr hs hv = write_sig-false env r s v hr hs

set_bytes-sig_rest :
    (v : ℕ) (need_recovery : Bool)
    → set_bytes (sig_rest need_recovery v) ≡ (if need_recovery then v else 0)
unfolding set_bytes
set_bytes-sig_rest v true = rw append-nil (set_bytes-pad 1 v)
set_bytes-sig_rest v false = refl

-- Where R is below 2 ^ 256, S below the order N of the group, N at most 2 ^ 256 and the recovery id
-- below 256, SerializeSig returns bytes of which the first 32 read as R and the next 32 as a number in
-- the low half of N that is S or N - S; what follows reads as the recovery id if that was asked for, and
-- as 0 if not.
pub serialize_sig_low :
    (env : Env) (sig : TssSignature) (rb sb vb : Bytes) (need_recovery : Bool)
    → sig.r ≡ ok rb
    → sig.s ≡ ok sb
    → sig.recovery_id ≡ ok vb
    → set_bytes rb < 2 ^ 256
    → set_bytes sb < env.curve_order
    → env.curve_order ≤ 2 ^ 256
    → set_bytes vb < 256
    → (out : Bytes) × (serialize_sig env sig need_recovery ≡ done (ok out))
      × (set_bytes (take 32 out) ≡ set_bytes rb)
      × (set_bytes (take 32 (drop 32 out)) ≤ env.curve_order / 2)
      × ((set_bytes (take 32 (drop 32 out)) ≡ set_bytes sb)
          ⊎ (set_bytes (take 32 (drop 32 out)) + set_bytes sb ≡ env.curve_order))
      × (set_bytes (drop 64 out) ≡ (if need_recovery then set_bytes vb else 0))
unfolding serialize_sig
serialize_sig_low env sig rb sb vb need_recovery er es ev hr hs hn hv =
    let r = set_bytes rb in
    let s = low_s env (set_bytes sb) in
    let rest = sig_rest need_recovery (set_bytes vb) in
    let low = low_s-le env (set_bytes sb) hs in
    let small : s < 2 ^ 256 = omega arith in
    let s_back = layout_s r s rest hr small in
    (
      pad 32 (big_bytes r) ++ pad 32 (big_bytes s) ++ rest,
      rw (er, es, ev, write_sig_lem env r s (set_bytes vb) need_recovery hr small hv),
      layout_r r s rest hr small,
      rw s_back low.0,
      rw s_back low.1,
      ap set_bytes (layout_rest r s rest hr small)
          ∙ set_bytes-sig_rest (set_bytes vb) need_recovery,
    )
