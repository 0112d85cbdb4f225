-- ===== src/Bridge/Sound/OnPubBlock.antt =====
-- bridge/joltifyBridge.go: a block of the public chain keeps the loop's invariant and does not panic.
use oppy_bridge.Common.{
  ℕ, ◌≡◌, refl, sym, ap, ◌∙◌, subst, inl, inr, Bool, true, false, some, List, arith, ltb, nat_key,
  string_key, bytes_key, Bool-cases, length, All,
}
use oppy_bridge.Common.Int.{ℤ, int_key, int64_of}
use oppy_bridge.Common.Outcome.{
  Outcome, done, panics, blocked, ◌>>=◌, Safe, Safe-bind, Returns-Safe,
}
use oppy_bridge.Common.Result.{Result, ok, err, Result-cases}
use oppy_bridge.Config.{req_cache_size}
use oppy_bridge.External.{Bytes, Transaction, Env}
use oppy_bridge.Misc.BigInt.{uint64}
use oppy_bridge.Pool.{PoolInfo}
use oppy_bridge.RetryPool.Keeps.{pop-IsValid}
use oppy_bridge.MoveFundQueue
use oppy_bridge.MoveFundQueue.Keeps.{pop-IsDistinct, add-IsDistinct}
use oppy_bridge.SyncMap.{SyncMap}
use oppy_bridge.SyncMap.Distinct.{IsDistinct}
use oppy_bridge.Pubchain.State.{PubChainInstance, add_pub_move_fund, pop_pub_move_fund}
use oppy_bridge.Pubchain.Blocks.{process_each_block, process_new_block, delete_expired}
use oppy_bridge.Pubchain.Inbound.Amounts.{Amounts}
use oppy_bridge.Pubchain.Blocks.Amounts.{Fits, total_value, block-Safe}
use oppy_bridge.Pubchain.Blocks.Frame.{Frame}
use oppy_bridge.Pubchain.Blocks.Unknown.{no_block}
use oppy_bridge.Pubchain.Sending.{EthClient, move_pub_funds}
use oppy_bridge.Pubchain.Sending.Returns.{IsAble, funds-Returns}
use oppy_bridge.Joltify.State.{OutBoundReq, set_outbound_height, pop_outbound_item, send_outbound}
use oppy_bridge.Joltify.Service.{JoltService, check_whether_signer}
use oppy_bridge.Bridge.{Bridge}
use oppy_bridge.Bridge.PubBlock.{
  retry_outbound, requeue, move_to_latest, move_pub_queue, new_pub_block,
}
use oppy_bridge.Bridge.Sound.{IsSound, Latest}
use oppy_bridge.Bridge.Sound.OnJoltBlock.{busy_knows}

-- If the block was found: the signatures of its transactions fit, and its amounts fit sdk.Int, those of
-- the payments together with each fee that waits.
abbrev pub BlockFits : Env → Result (List Transaction) → PubChainInstance → Type 0
BlockFits env (ok txs) pi = All (Fits env pi) txs × Amounts (total_value txs) pi
BlockFits env (err e) pi = Unit {0}

Frame-IsSound :
    (b : Bridge) (pi : PubChainInstance)
    → IsSound b
    → Latest b.pi.last_two_pools
    → Frame b.pi pi
    → IsSound (record b { pi = pi })
Frame-IsSound b pi s (p, l) (v, m, e, _) = record {
  lockstep = e ∙ s.lockstep;
  inbound_valid = v s.inbound_valid;
  outbound_valid = s.outbound_valid;
  moves_distinct = subst IsDistinct (sym m) s.moves_distinct;
  jolt_moves_distinct = s.jolt_moves_distinct;
  known = inl (p, ap (λ t. t.pool1) e ∙ l);
}

txs-IsSound :
    (env : Env) (number : ℕ) (check_each_tx : Bytes → Result ℕ) (txs : List Transaction)
    (b : Bridge)
    → All (Fits env b.pi) txs
    → Amounts (total_value txs) b.pi
    → IsSound b
    → Safe
        (λ pi. IsSound (record b { pi = pi }))
        (process_each_block env check_each_tx number txs b.pi)
txs-IsSound env number check_each_tx txs b fits a s = elim s.known [
  | inr idle ↦
      subst (Safe (λ pi. IsSound (record b { pi = pi })))
        (sym (no_block env b.pi idle.unknown check_each_tx number txs)) s
  | inl l ↦
      weaken (process_each_block env check_each_tx number txs b.pi)
        (block-Safe b.pi env number check_each_tx txs b.pi fits (λ v. v, refl, refl, refl) a)
        (λ pi f. Frame-IsSound b pi s l f)
]
  where
    weaken :
        (out : Outcome PubChainInstance)
        → Safe (Frame b.pi) out
        → ((pi : PubChainInstance) → Frame b.pi pi → IsSound (record b { pi = pi }))
        → Safe (λ pi. IsSound (record b { pi = pi })) out
    weaken (done pi) f g = g pi f
    weaken panics f g = f
    weaken blocked f g = tt

block-IsSound :
    (env : Env) (number : ℕ) (check_each_tx : Bytes → Result ℕ) (block : Result (List Transaction))
    (b : Bridge)
    → BlockFits env block b.pi
    → IsSound b
    → Safe
        (λ o. IsSound (record b { pi = o.1 }))
        (process_new_block env check_each_tx number block b.pi)
unfolding process_new_block
block-IsSound env number check_each_tx (err e) b fits s = s
block-IsSound env number check_each_tx (ok txs) b fits s =
    Safe-bind (λ pi. IsSound (record b { pi = pi })) (λ o. IsSound (record b { pi = o.1 }))
      (process_each_block env check_each_tx number txs b.pi) (λ pi. done (ok tt, pi))
      (txs-IsSound env number check_each_tx txs b fits.0 fits.1 s) (λ pi s'. s')

outbound_sent-IsSound :
    (b : Bridge) (req : OutBoundReq)
    → IsSound b
    → Latest b.pi.last_two_pools
    → Safe (λ jc. IsSound (record b { jolt_chain = jc })) (send_outbound req b.jolt_chain)
unfolding send_outbound
outbound_sent-IsSound b req s l =
    elim (Bool-cases (ltb (length b.jolt_chain.outbound_req_chan) req_cache_size)) [
      | inr full ↦ rw (full, send_outbound) tt
      | inl room ↦
          rw (room, send_outbound)
            (record {
              lockstep = s.lockstep;
              inbound_valid = s.inbound_valid;
              outbound_valid = s.outbound_valid;
              moves_distinct = s.moves_distinct;
              jolt_moves_distinct = s.jolt_moves_distinct;
              known = inl l;
            })
    ]

outbound_retry-IsSound :
    (number : ℕ) (b : Bridge)
    → IsSound b
    → Safe (λ jc. IsSound (record b { jolt_chain = jc })) (retry_outbound number b.jolt_chain)
unfolding retry_outbound pop_outbound_item
outbound_retry-IsSound number b s =
    elim (pop-IsValid b.jolt_chain.retry_outbound_req s.outbound_valid) [
      | inl e ↦ rw (e, retry_outbound, pop_outbound_item) s
      | inr (req, p', e, v, busy) ↦
          let l = busy_knows b s (λ idle. busy idle.no_outbound_retries) in
          let popped : IsSound
              (record b { jolt_chain = record b.jolt_chain { retry_outbound_req = p' } }) =
            record {
              lockstep = s.lockstep;
              inbound_valid = s.inbound_valid;
              outbound_valid = v;
              moves_distinct = s.moves_distinct;
              jolt_moves_distinct = s.jolt_moves_distinct;
              known = inl l;
            } in
          rw (e, retry_outbound, pop_outbound_item)
            (outbound_sent-IsSound
              (record b { jolt_chain = record b.jolt_chain { retry_outbound_req = p' } })
              (set_outbound_height (int64_of number) req) popped l)
    ]

-- The queue of the public chain may change where a pool is known.
moves-IsSound :
    (m : SyncMap ℤ PoolInfo) (b : Bridge)
    → IsSound b
    → Latest b.pi.last_two_pools
    → IsDistinct m
    → IsSound (record b { pi = record b.pi { move_fund_req = m } })
moves-IsSound m b s l d = record {
  lockstep = s.lockstep;
  inbound_valid = s.inbound_valid;
  outbound_valid = s.outbound_valid;
  moves_distinct = d;
  jolt_moves_distinct = s.jolt_moves_distinct;
  known = inl l;
}

requeue-IsSound :
    (previous : PoolInfo) (result : Bool × Result (Unit {0})) (b : Bridge)
    → IsSound b
    → Latest b.pi.last_two_pools
    → IsSound (record b { pi = requeue previous result b.pi })
unfolding requeue add_pub_move_fund
requeue-IsSound previous (true, ok _) b s l = s
requeue-IsSound previous (false, ok _) b s l =
    moves-IsSound (MoveFundQueue.add_move_fund_item previous b.pi.current_height b.pi.move_fund_req)
      b s l (add-IsDistinct previous b.pi.current_height b.pi.move_fund_req s.moves_distinct)
requeue-IsSound previous (empty, err e) b s l =
    moves-IsSound (MoveFundQueue.add_move_fund_item previous b.pi.current_height b.pi.move_fund_req)
      b s l (add-IsDistinct previous b.pi.current_height b.pi.move_fund_req s.moves_distinct)

module _ (env : Env) (svc : JoltService) (client : EthClient) (able : IsAble env client)
    (number : ℕ) where
  latest_known :
      (previous latest : PoolInfo) (pi : PubChainInstance)
      → check_whether_signer svc previous.pool_info ≡ ok true
      → pi.last_two_pools.pool1 ≡ some latest
      → move_to_latest env svc client number previous pi ≡ (
          move_pub_funds env client previous latest.eth_address (int64_of number) pi >>= λ moved.
          done (requeue previous moved pi))
  unfolding move_to_latest
  latest_known previous latest pi c l = ground arith

  Latest-IsSound :
      (previous : PoolInfo) (b : Bridge)
      → IsSound b
      → Latest b.pi.last_two_pools
      → Safe
          (λ pi. IsSound (record b { pi = pi }))
          (move_to_latest env svc client number previous b.pi)
  unfolding move_to_latest
  Latest-IsSound previous b s l =
      elim (Result-cases (check_whether_signer svc previous.pool_info)) [
        | inr (e, c) ↦ rw (c, move_to_latest) s
        | inl (false, c) ↦ rw (c, move_to_latest) s
        | inl (true, c) ↦
            subst (Safe (λ pi. IsSound (record b { pi = pi })))
              (sym (latest_known previous l.0 b.pi c l.1))
              (Safe-bind (λ a. Unit {0}) (λ pi. IsSound (record b { pi = pi }))
                (move_pub_funds env client previous l.0.eth_address (int64_of number) b.pi)
                (λ moved. done (requeue previous moved b.pi))
                (Returns-Safe _ (
                  funds-Returns env client able b.pi l.0 l.1 previous l.0.eth_address
                    (int64_of number)))
                (λ moved u. requeue-IsSound previous moved b s l))
      ]

  queue-IsSound :
      (b : Bridge)
      → IsSound b
      → Safe (λ pi. IsSound (record b { pi = pi })) (move_pub_queue env svc client number b.pi)
  unfolding move_pub_queue pop_pub_move_fund
  queue-IsSound b s =
      elim (pop-IsDistinct (int64_of (uint64 number)) b.pi.move_fund_req s.moves_distinct) [
        | inl e ↦ rw (e, move_pub_queue, pop_pub_move_fund) s
        | inr (entry, m, e, d, busy) ↦
            let l = busy_knows b s (λ idle. busy idle.no_moves) in
            rw (e, move_pub_queue, pop_pub_move_fund)
              (Latest-IsSound entry.0 (record b { pi = record b.pi { move_fund_req = m } })
                (moves-IsSound m b s l d) l)
      ]

  pub pub_block-IsSound :
      (check_each_tx : Bytes → Result ℕ) (block : Result (List Transaction)) (b : Bridge)
      → BlockFits env block b.pi
      → IsSound b
      → Safe IsSound (new_pub_block env svc client number check_each_tx block b)
  unfolding new_pub_block delete_expired
  pub_block-IsSound check_each_tx block b fits s =
      Safe-bind (λ o. IsSound (record b { pi = o.1 })) IsSound
        (process_new_block env check_each_tx number block b.pi) _
        (block-IsSound env number check_each_tx block b fits s)
        (λ o s1.
          Safe-bind (λ jc. IsSound (record b { pi = o.1; jolt_chain = jc })) IsSound
            (retry_outbound number b.jolt_chain) _
            (outbound_retry-IsSound number (record b { pi = o.1 }) s1)
            (λ jc s2.
              Safe-bind (λ pi. IsSound (record b { pi = pi; jolt_chain = jc })) IsSound
                (move_pub_queue env svc client number (
                  delete_expired (uint64 number) (record o.1 { current_height = int64_of number })))
                _
                (queue-IsSound
                  (record b {
                    pi =
                        delete_expired (uint64 number)
                          (record o.1 { current_height = int64_of number });
                    jolt_chain = jc;
                  })
                  s2)
                (λ pi s3. s3)))
