-- ===== src/Bridge/Sound/OnJoltBlock.antt =====
-- bridge/joltifyBridge.go: a block of the joltify chain keeps the loop's invariant and does not panic.
use oppy_bridge.Common.{
  String, ◌≡◌, sym, subst, inl, inr, Bool, true, false, none, some, List, [], ◌∷◌, arith, ltb,
  nat_key, string_key, bytes_key, Bool-cases, Option-cases, length,
}
use oppy_bridge.Common.Int.{ℤ, int_key}
use oppy_bridge.Common.Outcome.{done, ◌>>=◌, Safe, Safe-bind, Returns-Safe}
use oppy_bridge.Common.Result.{Result, ok, err, Result-cases}
use oppy_bridge.Config.{req_cache_size}
use oppy_bridge.External.{VaultPool, Env}
use oppy_bridge.Pool.{PoolInfo}
use oppy_bridge.RetryPool.Keeps.{pop-IsValid}
use oppy_bridge.MoveFundQueue
use oppy_bridge.MoveFundQueue.Keeps.{pop-IsDistinct, add-IsDistinct}
use oppy_bridge.SyncMap.{SyncMap}
use oppy_bridge.SyncMap.Distinct.{IsDistinct}
use oppy_bridge.Pubchain.State.{InboundReq, set_item_height, pop_inbound_item, send_inbound}
use oppy_bridge.Joltify.State.{add_jolt_move_fund, pop_jolt_move_fund}
use oppy_bridge.Joltify.Service.{JoltService, check_whether_signer, move_jolt_funds}
use oppy_bridge.Joltify.Service.Returns.{funds-Returns}
use oppy_bridge.Joltify.Signing.Returns.{IsReady}
use oppy_bridge.Joltify.Membership.{check_and_update_pool}
use oppy_bridge.Joltify.Membership.Returns.{check-Returns}
use oppy_bridge.Bridge.{Bridge, need_update}
use oppy_bridge.Bridge.JoltBlock.{
  requeue_jolt, retry_inbound, fill_pools, rotate, move_retired, move_jolt_queue, follow_pools,
  with_pools, follow_block, new_joltify_block,
}
use oppy_bridge.Bridge.Sound.{IsSound, IsIdle, Latest}
use oppy_bridge.Bridge.Sound.OnRotation.{fill-IsSound, rotate-IsSound}
use oppy_bridge.Bridge.Sound.Pools.{need_known}

-- A bridge with something to pop knows a latest pool.
pub busy_knows : (b : Bridge) → IsSound b → (IsIdle b → ⊥) → Latest b.pi.last_two_pools
busy_knows b s busy = elim s.known [ inl l ↦ l | inr idle ↦ absurd (busy idle) ]

send-IsSound :
    (b : Bridge) (req : InboundReq)
    → IsSound b
    → Latest b.pi.last_two_pools
    → Safe (λ pi. IsSound (record b { pi = pi })) (send_inbound req b.pi)
unfolding send_inbound
send-IsSound b req s l = elim (Bool-cases (ltb (length b.pi.inbound_req_chan) req_cache_size)) [
  | inr full ↦ rw (full, send_inbound) tt
  | inl room ↦
      rw (room, send_inbound)
        (record {
          lockstep = s.lockstep;
          inbound_valid = s.inbound_valid;
          outbound_valid = s.outbound_valid;
          moves_distinct = s.moves_distinct;
          jolt_moves_distinct = s.jolt_moves_distinct;
          known = inl l;
        })
]

retry-IsSound :
    (height : ℤ) (b : Bridge)
    → IsSound b
    → Safe (λ pi. IsSound (record b { pi = pi })) (retry_inbound height b.pi)
unfolding retry_inbound pop_inbound_item
retry-IsSound height b s = elim (pop-IsValid b.pi.retry_inbound_req s.inbound_valid) [
  | inl e ↦ rw (e, retry_inbound, pop_inbound_item) s
  | inr (req, p', e, v, busy) ↦
      let l = busy_knows b s (λ idle. busy idle.no_retries) in
      let popped : IsSound (record b { pi = record b.pi { retry_inbound_req = p' } }) = record {
        lockstep = s.lockstep;
        inbound_valid = v;
        outbound_valid = s.outbound_valid;
        moves_distinct = s.moves_distinct;
        jolt_moves_distinct = s.jolt_moves_distinct;
        known = inl l;
      } in
      rw (e, retry_inbound, pop_inbound_item)
        (send-IsSound (record b { pi = record b.pi { retry_inbound_req = p' } })
          (set_item_height height req) popped l)
]

-- The queue of the joltify chain may change alone.
jolt_moves-IsSound :
    (m : SyncMap ℤ PoolInfo) (b : Bridge)
    → IsSound b
    → IsDistinct m
    → IsSound (record b { jolt_chain = record b.jolt_chain { move_fund_req = m } })
jolt_moves-IsSound m b s d = record {
  lockstep = s.lockstep;
  inbound_valid = s.inbound_valid;
  outbound_valid = s.outbound_valid;
  moves_distinct = s.moves_distinct;
  jolt_moves_distinct = d;
  known = elim s.known [
    | inl l ↦ inl l
    | inr i ↦ inr (record {
      unknown = i.unknown;
      no_retries = i.no_retries;
      no_outbound_retries = i.no_outbound_retries;
      no_moves = i.no_moves;
      no_requests = i.no_requests;
      no_outbound_requests = i.no_outbound_requests;
      no_checks = i.no_checks;
      no_outbound_checks = i.no_outbound_checks;
    })
  ];
}

requeue-IsSound :
    (height : ℤ) (previous : PoolInfo) (result : Bool × Result (Unit {0})) (b : Bridge)
    → IsSound b
    → IsSound (requeue_jolt height previous result b)
unfolding requeue_jolt add_jolt_move_fund
requeue-IsSound height previous (true, _) b s = s
requeue-IsSound height previous (false, _) b s =
    jolt_moves-IsSound (MoveFundQueue.add_move_fund_item previous height b.jolt_chain.move_fund_req)
      b s (add-IsDistinct previous height b.jolt_chain.move_fund_req s.jolt_moves_distinct)

keep-IsSound :
    (env : Env) (height : ℤ) (latest : VaultPool) (b : Bridge)
    → IsSound b
    → Safe IsSound (rotate env height latest false b)
unfolding rotate
keep-IsSound env height latest b s = s

module _ (env : Env) (svc : JoltService) (height : ℤ) where
  follow_unknown :
      (q0 q1 : VaultPool) (b : Bridge)
      → b.pi.last_two_pools.pool0 ≡ none
      → follow_pools env svc height q0 q1 b ≡ done (fill_pools env (q0 ∷ q1 ∷ []) b)
  unfolding follow_pools
  follow_unknown q0 q1 b c = ground arith

  follow_known :
      (q0 q1 : VaultPool) (b : Bridge) (cur0 : PoolInfo) (need : Bool)
      → b.pi.last_two_pools.pool0 ≡ some cur0
      → need_update env (q0 ∷ q1 ∷ []) b.pi.last_two_pools ≡ done need
      → follow_pools env svc height q0 q1 b
        ≡ (rotate env height q0 need b >>= move_jolt_queue env svc height q0)
  unfolding follow_pools
  follow_known q0 q1 b cur0 need c n = ground arith

  pub pools_unknown :
      (b : Bridge) (e : String)
      → svc.last_pools ≡ err e
      → follow_block env svc height b
        ≡ done (record b { jolt_chain = record b.jolt_chain { current_height = height } })
  unfolding follow_block
  pools_unknown b e q = ground arith

  pub pools_known :
      (b : Bridge) (pools : List VaultPool)
      → svc.last_pools ≡ ok pools
      → follow_block env svc height b
        ≡ with_pools env svc height pools
            (record b { jolt_chain = record b.jolt_chain { current_height = height } })
  unfolding follow_block
  pools_known b pools q = ground arith

module _ (env : Env) (svc : JoltService) (ready : IsReady env svc.cosmos) (height : ℤ) where
  move-IsSound :
      (latest : VaultPool) (previous : PoolInfo) (b : Bridge)
      → IsSound b
      → Safe IsSound (move_retired env svc height latest previous b)
  unfolding move_retired
  move-IsSound latest previous b s =
      elim (Result-cases (check_whether_signer svc previous.pool_info)) [
        | inr (e, c) ↦ rw (c, move_retired) s
        | inl (false, c) ↦ rw (c, move_retired) s
        | inl (true, c) ↦
            rw (c, move_retired)
              (Safe-bind (λ a. Unit {0}) IsSound
                (move_jolt_funds svc env previous latest.pool_addr height)
                (λ moved. done (requeue_jolt height previous moved b))
                (Returns-Safe _ (funds-Returns env svc ready previous latest.pool_addr height))
                (λ moved u. requeue-IsSound height previous moved b s))
      ]

  queue-IsSound :
      (latest : VaultPool) (b : Bridge)
      → IsSound b
      → Safe IsSound (move_jolt_queue env svc height latest b)
  unfolding move_jolt_queue pop_jolt_move_fund
  queue-IsSound latest b s =
      elim (pop-IsDistinct height b.jolt_chain.move_fund_req s.jolt_moves_distinct) [
        | inl e ↦ rw (e, move_jolt_queue, pop_jolt_move_fund) s
        | inr (entry, m, e, d, _) ↦
            rw (e, move_jolt_queue, pop_jolt_move_fund)
              (move-IsSound latest entry.0
                (record b { jolt_chain = record b.jolt_chain { move_fund_req = m } })
                (jolt_moves-IsSound m b s d))
      ]

  follow-IsSound :
      (q0 q1 : VaultPool) (b : Bridge)
      → IsSound b
      → Safe IsSound (follow_pools env svc height q0 q1 b)
  follow-IsSound q0 q1 b s = elim (Option-cases b.pi.last_two_pools.pool0) [
    | inl c ↦
        subst (Safe IsSound) (sym (follow_unknown env svc height q0 q1 b c))
          (fill-IsSound env (q0 ∷ q1 ∷ []) b s)
    | inr (cur0, c) ↦
        let (cur1, l) = busy_knows b s (λ idle. ground (arith, idle.unknown, c)) in
        elim (need_known env q0 q1 b.pi.last_two_pools cur0 cur1 c l) [
          | inl n ↦
              subst (Safe IsSound) (sym (follow_known env svc height q0 q1 b cur0 false c n)) (
                Safe-bind IsSound IsSound (rotate env height q0 false b)
                  (move_jolt_queue env svc height q0) (keep-IsSound env height q0 b s)
                  (queue-IsSound q0))
          | inr (n, (a, q)) ↦
              subst (Safe IsSound) (sym (follow_known env svc height q0 q1 b cur0 true c n)) (
                Safe-bind IsSound IsSound (rotate env height q0 true b)
                  (move_jolt_queue env svc height q0) (rotate-IsSound env height q0 b cur0 a s c q)
                  (queue-IsSound q0))
        ]
  ]

  with_pools-IsSound :
      (pools : List VaultPool) (b : Bridge)
      → IsSound b
      → Safe IsSound (with_pools env svc height pools b)
  unfolding with_pools
  with_pools-IsSound [] b s = s
  with_pools-IsSound (_ ∷ []) b s = s
  with_pools-IsSound (_ ∷ _ ∷ _ ∷ _) b s = s
  with_pools-IsSound (q0 ∷ q1 ∷ []) b s =
      Safe-bind (λ pi. IsSound (record b { pi = pi })) IsSound (retry_inbound height b.pi)
        (λ pi. follow_pools env svc height q0 q1 (record b { pi = pi })) (retry-IsSound height b s)
        (λ pi s'. follow-IsSound q0 q1 (record b { pi = pi }) s')

  follow_block-IsSound : (b : Bridge) → IsSound b → Safe IsSound (follow_block env svc height b)
  follow_block-IsSound b s = elim (Result-cases svc.last_pools) [
    | inr (e, q) ↦ subst (Safe IsSound) (sym (pools_unknown env svc height b e q)) s
    | inl (pools, q) ↦ subst (Safe IsSound) (sym (pools_known env svc height b pools q)) (
        with_pools-IsSound pools
          (record b { jolt_chain = record b.jolt_chain { current_height = height } }) s)
  ]

  pub jolt_block-IsSound :
      (b : Bridge) → IsSound b → Safe IsSound (new_joltify_block env svc height b)
  unfolding new_joltify_block
  jolt_block-IsSound b s =
      Safe-bind (λ o. Unit {0}) IsSound (check_and_update_pool env svc.cosmos height b.membership)
        (λ checked. follow_block env svc height (record b { membership = checked.1 }))
        (Returns-Safe _ (check-Returns env svc.cosmos ready height b.membership))
        (λ checked _. follow_block-IsSound (record b { membership = checked.1 }) s)
