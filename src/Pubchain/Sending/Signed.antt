-- ===== src/Pubchain/Sending/Signed.antt =====
-- pubchain/tx_send.go: a payment is sent only with a whole signature.
use oppy_bridge.Common.{
  ℕ, String, ◌≡◌, refl, sym, ◌∙◌, ◌≢◌, ◌⊎◌, inl, inr, Bool, true, false, none, some, List, [], ◌∷◌,
  arith, ◌==◌, nat_key, string_key, bytes_key, Bool-cases, Option-cases, beq_refl, length,
}
use oppy_bridge.Common.Int.{ℤ}
use oppy_bridge.Common.Outcome.{Outcome, done, panics, blocked, ◌>>=◌}
use oppy_bridge.Common.Result.{Result, ok, err, Result-cases}
use oppy_bridge.External.{Bytes, Env}
use oppy_bridge.Misc.Signature.{TssSignature, serialize_sig}
use oppy_bridge.Pool.{PoolInfo}
use oppy_bridge.Pubchain.State.{PubChainInstance, get_pub_pool}
use oppy_bridge.Pubchain.Sending.{
  EthClient, read_response, tss_sign, attach, sign_tx, send_signed, transfer_as, send_token,
  no_hash,
}

module _ (env : Env) (client : EthClient) where
  -- The key server signed this message with one signature, of which these are the 65 bytes.
  abbrev pub Signs : String → Bytes → ℤ → Bytes → Type 0
  Signs pk msg height signature =
      (s : TssSignature) × (client.key_sign pk msg height ≡ ok (true, s ∷ []))
      × (serialize_sig env s true ≡ done (ok signature))
      × (length signature ≡ 65)

  tss_sign_answered :
      (pk : String) (msg : Bytes) (height : ℤ) (response : Bool × List TssSignature)
      → client.key_sign pk msg height ≡ ok response
      → tss_sign env client msg pk height ≡ read_response env client response
  unfolding tss_sign
  tss_sign_answered pk msg height response k = rw (k, tss_sign) refl

  signature_found :
      (pk : String) (msg signature : Bytes) (height : ℤ)
      → tss_sign env client msg pk height ≡ done (ok signature)
      → length signature ≡ 65
      → Signs pk msg height signature
  unfolding tss_sign read_response
  signature_found pk msg signature height e l =
      elim (Result-cases (client.key_sign pk msg height)) [
        | inr (t, k) ↦ absurd (ground (arith, k, e))
        | inl (response, k) ↦
            from_response response k (sym (tss_sign_answered pk msg height response k) ∙ e)
      ]
    where
      from_response :
          (response : Bool × List TssSignature)
          → client.key_sign pk msg height ≡ ok response
          → read_response env client response ≡ done (ok signature)
          → Signs pk msg height signature
      from_response (false, signatures) k e = absurd (ground (arith, e, l))
      from_response (true, []) k e = absurd (ground (arith, e))
      from_response (true, s ∷ []) k e = (s, k, e, l)
      from_response (true, s ∷ t ∷ ss) k e = absurd (ground (arith, e))

  -- The transaction was signed with the key `pk` of the pool, for the sender, and sent, with its hash.
  abbrev pub Sends : String → Bytes → Bytes → ℕ → ℤ → ℕ → Bytes → Type 0
  Sends pk sender receiver amount height chain_id hash =
      (tx : Bytes) × (signature : Bytes) × (ready : Bytes) × (client.transfer sender receiver amount
        ≡ ok tx)
      × Signs pk (client.sign_hash chain_id tx) height signature
      × (client.with_signature chain_id tx signature ≡ ok ready)
      × (client.send_transaction ready ≡ ok tt)
      × (hash ≡ client.tx_hash ready)

  sign_tx_own :
      (pk : String) (sender : Bytes) (chain_id : ℕ) (height : ℤ) (tx : Bytes)
      → sign_tx env client pk sender chain_id height sender tx ≡ (
          tss_sign env client (client.sign_hash chain_id tx) pk height >>= λ signature.
          done (attach env client chain_id tx "fail to sign the tx" signature))
  unfolding sign_tx
  sign_tx_own pk sender chain_id height tx = rw (beq_refl sender) refl

  attached :
      (chain_id : ℕ) (tx ready signature : Bytes) (text : String)
      → attach env client chain_id tx text (ok signature) ≡ ok ready
      → (length signature ≡ 65) × (client.with_signature chain_id tx signature ≡ ok ready)
  unfolding attach
  attached chain_id tx ready signature text e = elim (Bool-cases (length signature == 65)) [
    | inl whole ↦ ((nat_key.same_iff (length signature) 65).0 whole, ground arith)
    | inr broken ↦ absurd (ground arith)
  ]

  transfer_as_tx :
      (pk : String) (sender receiver : Bytes) (amount : ℕ) (height : ℤ) (chain_id : ℕ) (tx : Bytes)
      → client.transfer sender receiver amount ≡ ok tx
      → transfer_as env client pk sender receiver amount height chain_id ≡ (
          sign_tx env client pk sender chain_id height sender tx >>= λ ready.
          done (send_signed env client ready))
  unfolding transfer_as
  transfer_as_tx pk sender receiver amount height chain_id tx e = rw (e, transfer_as) refl

  transfer_as-Sends :
      (pk : String) (sender receiver : Bytes) (amount : ℕ) (height : ℤ) (chain_id : ℕ)
      (hash : Bytes)
      → transfer_as env client pk sender receiver amount height chain_id ≡ done (hash, ok tt)
      → Sends pk sender receiver amount height chain_id hash
  unfolding transfer_as attach send_signed
  transfer_as-Sends pk sender receiver amount height chain_id hash e =
      elim (Result-cases (client.transfer sender receiver amount)) [
        | inr (t, x) ↦ absurd (ground (arith, x, e))
        | inl (tx, x) ↦
            from_signer tx x (sign_tx env client pk sender chain_id height sender tx) refl
              (sym (transfer_as_tx pk sender receiver amount height chain_id tx x) ∙ e)
      ]
    where
      from_tss :
          (tx ready : Bytes)
          → client.transfer sender receiver amount ≡ ok tx
          → (client.send_transaction ready ≡ ok tt)
          → (hash ≡ client.tx_hash ready)
          → (signed : Outcome (Result Bytes))
          → tss_sign env client (client.sign_hash chain_id tx) pk height ≡ signed
          → (signed >>= λ signature.
              done (attach env client chain_id tx "fail to sign the tx" signature))
            ≡ done (ok ready)
          → Sends pk sender receiver amount height chain_id hash
      from_tss tx ready x sent h panics q r = absurd (ground (arith, r))
      from_tss tx ready x sent h blocked q r = absurd (ground (arith, r))
      from_tss tx ready x sent h (done (err t)) q r = absurd (ground (arith, r))
      from_tss tx ready x sent h (done (ok signature)) q r =
          let (l, w) = attached chain_id tx ready signature "fail to sign the tx" cc in
          (
            tx,
            signature,
            ready,
            x,
            signature_found pk (client.sign_hash chain_id tx) signature height q l,
            w,
            sent,
            h,
          )

      from_signer :
          (tx : Bytes)
          → client.transfer sender receiver amount ≡ ok tx
          → (signed : Outcome (Result Bytes))
          → sign_tx env client pk sender chain_id height sender tx ≡ signed
          → (signed >>= λ ready. done (send_signed env client ready)) ≡ done (hash, ok tt)
          → Sends pk sender receiver amount height chain_id hash
      from_signer tx x panics q r = absurd (ground (arith, r))
      from_signer tx x blocked q r = absurd (ground (arith, r))
      from_signer tx x (done (err t)) q r = absurd (ground (arith, r))
      from_signer tx x (done (ok ready)) q r =
          from_tss tx ready x (ground arith) (ground arith)
            (tss_sign env client (client.sign_hash chain_id tx) pk height) refl
            (sym (sign_tx_own pk sender chain_id height tx) ∙ q)

  pub token_fails :
      (signer_pk : String) (sender receiver : Bytes) (amount : ℕ) (height : ℤ)
      (pi : PubChainInstance) (t : String)
      → client.network_id ≡ err t
      → send_token env client signer_pk sender receiver amount height pi
        ≡ done (no_hash env client, err t)
  unfolding send_token
  token_fails signer_pk sender receiver amount height pi t n = ground arith

  module _ (signer_pk : String) (sender receiver : Bytes) (amount : ℕ) (height : ℤ) (chain_id : ℕ)
      (pi : PubChainInstance) (n : client.network_id ≡ ok chain_id) where
    pub token_given :
        (signer_pk == "") ≡ false
        → send_token env client signer_pk sender receiver amount height pi
          ≡ transfer_as env client signer_pk sender receiver amount height chain_id
    unfolding send_token
    token_given given = ground arith

    token_no_pool :
        (signer_pk == "") ≡ true
        → (get_pub_pool pi).pool1 ≡ none
        → send_token env client signer_pk sender receiver amount height pi ≡ panics
    unfolding send_token
    token_no_pool empty p = ground arith

    pub token_latest :
        (pool : PoolInfo)
        → (signer_pk == "") ≡ true
        → (get_pub_pool pi).pool1 ≡ some pool
        → send_token env client signer_pk sender receiver amount height pi
          ≡ transfer_as env client pool.pk sender receiver amount height chain_id
    unfolding send_token
    token_latest pool empty p = ground arith

  -- The key that SendToken signs with: its argument, or that of the latest pool.
  abbrev pub KeyOf : String → PubChainInstance → String → Type 0
  KeyOf pk pi key =
      ((key ≡ pk) × (pk ≢ ""))
      ⊎ ((pk ≡ "") × (p : PoolInfo) × ((get_pub_pool pi).pool1 ≡ some p) × (key ≡ p.pk))

  -- SendToken returns without an error only if the key server succeeded and returned exactly one
  -- signature, over the transfer of this amount from the sender to the receiver, by the key that was asked
  -- for or else the latest pool's, SerializeSig made 65 bytes of it, and the node accepted the transaction
  -- with this signature; the hash that it returns is that transaction's.
  pub send_token_signed :
      (signer_pk : String) (sender receiver : Bytes) (amount : ℕ) (height : ℤ)
      (pi : PubChainInstance) (hash : Bytes)
      → send_token env client signer_pk sender receiver amount height pi ≡ done (hash, ok tt)
      → (key : String) × (chain_id : ℕ) × (client.network_id ≡ ok chain_id)
        × KeyOf signer_pk pi key
        × Sends key sender receiver amount height chain_id hash
  send_token_signed signer_pk sender receiver amount height pi hash e =
      elim (Result-cases client.network_id) [
        | inr (t, n) ↦
            absurd
              (ground (arith, n, token_fails signer_pk sender receiver amount height pi t n, e))
        | inl (chain_id, n) ↦ elim (Bool-cases (signer_pk == "")) [
          | inr given ↦ (
            signer_pk,
            chain_id,
            n,
            inl (refl, λ q. ground (arith, q, given, (string_key.same_iff signer_pk "").1 q)),
            transfer_as-Sends signer_pk sender receiver amount height chain_id hash
                (sym (token_given signer_pk sender receiver amount height chain_id pi n given) ∙ e),
          )
          | inl empty ↦ elim (Option-cases (get_pub_pool pi).pool1) [
            | inl p ↦ absurd (
                ground (
                  arith,
                  token_no_pool signer_pk sender receiver amount height chain_id pi n empty p,
                  e,
                ))
            | inr (pool, p) ↦ (
              pool.pk,
              chain_id,
              n,
              inr ((string_key.same_iff signer_pk "").0 empty, pool, p, refl),
              transfer_as-Sends pool.pk sender receiver amount height chain_id hash (
                  sym (
                    token_latest signer_pk sender receiver amount height chain_id pi n pool empty p)
                  ∙ e),
            )
          ]
        ]
      ]
