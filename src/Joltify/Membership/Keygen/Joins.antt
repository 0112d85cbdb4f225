-- ===== src/Joltify/Membership/Keygen/Joins.antt =====
-- joltifybridge/event.go: which updates of the validators make this node prepare a pool message.
use oppy_bridge.Common.{
  ℕ, String, ◌≡◌, refl, sym, ap, ◌∙◌, ◌≢◌, ◌⊎◌, inl, inr, Bool, true, false, ◌||◌, List, [], ◌∷◌,
  ◌++◌, arith, ◌==◌, bytes_key, Bool-cases, All,
}
use mathlib.Core.List.{append-nil, append_assoc}
use oppy_bridge.Common.Int.{ℤ, pos, add64_fits, IsInt64, ◌+ℤ◌}
use oppy_bridge.Common.Result.{Result, ok}
use oppy_bridge.External.{Bytes, Env}
use oppy_bridge.Decimal.{format_int}
use oppy_bridge.Decimal.RoundTrip.{parse_int-format_int}
use oppy_bridge.Validators.{
  Validator, ValidatorSet, TmValidator, update_validator_set, get_active_validators,
}
use oppy_bridge.Validators.Keyed.{Among}
use oppy_bridge.Joltify.Signing.{Message}
use oppy_bridge.Joltify.Service.{JoltService}
use oppy_bridge.Joltify.Membership.{Membership, TssPoolMsg, prepare_tss_pool}
use oppy_bridge.Joltify.Membership.Keygen.{
  collect_keys, prepare_generated, generate, with_updated, handle_update_validators,
}

-- A validator of the list has this key.
abbrev pub Holds : Bytes → List Validator → Type 0
Holds key l = (w : Validator) × Among w l × (w.pub_key ≡ key)

abbrev pub key_texts : (Bytes → String) → List Validator → List String
key_texts text [] = []
key_texts text (w ∷ l) = text w.pub_key ∷ key_texts text l

-- The pool message that is prepared at a height.
abbrev pub pool_msg : Bytes → ℕ × ℕ → String → ℤ → TssPoolMsg
pool_msg creator acc pk height = record {
  msg = Message.create_pool creator pk (format_int height);
  acc = acc;
  pool_pub_key = pk;
  block_height = height;
}

-- The height that prepareTssPool reads back is the one that was printed.
prepared :
    (creator : Bytes) (acc : ℕ × ℕ) (pk : String) (z : ℤ) (m : Membership)
    → IsInt64 z
    → prepare_tss_pool (ok acc) creator pk (format_int z) m
      ≡ (ok tt, record m { msg_send_cache = m.msg_send_cache ++ pool_msg creator acc pk z ∷ [] })
unfolding prepare_tss_pool
prepared creator acc pk z m bounds = rw (parse_int-format_int z bounds, prepare_tss_pool) refl

module _ (env : Env) (mine : Bytes) (text : Bytes → String) where
  abbrev pub Marshals : List Validator → Type 0
  Marshals l = All (λ (w : Validator). env.marshal_pub_key w.pub_key ≡ ok (text w.pub_key)) l

  collect_step :
      (w : Validator) (l : List Validator) (ks : List String) (b : Bool)
      → env.marshal_pub_key w.pub_key ≡ ok (text w.pub_key)
      → collect_keys env (ok mine) (w ∷ l) ks b
        ≡ collect_keys env (ok mine) l (ks ++ text w.pub_key ∷ []) (b || w.pub_key == mine)
  unfolding collect_keys
  collect_step w l ks b h = ground arith

  collect-Holds :
      (l : List Validator) (ks : List String) (b : Bool)
      → Marshals l
      → ((collect_keys env (ok mine) l ks b ≡ ok (ks ++ key_texts text l, true))
          × ((b ≡ true) ⊎ Holds mine l))
        ⊎ ((collect_keys env (ok mine) l ks b ≡ ok (ks ++ key_texts text l, false))
            × (b ≡ false)
            × ((w : Validator) → Among w l → w.pub_key ≢ mine))
  unfolding collect_keys
  collect-Holds [] ks true h = inl (ap (λ k. ok (k, true)) (sym (append-nil ks)), inl refl)
  collect-Holds [] ks false h =
      inr (ap (λ k. ok (k, false)) (sym (append-nil ks)), refl, λ w a. absurd a)
  collect-Holds (w ∷ l) ks b h =
      let step = collect_step w l ks b h.0 in
      let texts = append_assoc ks (text w.pub_key ∷ []) (key_texts text l) in
      elim (collect-Holds l (ks ++ text w.pub_key ∷ []) (b || w.pub_key == mine) h.1) [
        | inl (e, found) ↦ inl (step ∙ e ∙ ap (λ k. ok (k, true)) texts, widen found)
        | inr (e, unset, others) ↦ inr (
          step ∙ e ∙ ap (λ k. ok (k, false)) texts,
          ground (arith, unset),
          spread (ground (arith, unset)) others,
        )
      ]
    where
      widen : ((b || w.pub_key == mine) ≡ true) ⊎ Holds mine l → (b ≡ true) ⊎ Holds mine (w ∷ l)
      widen (inr (v, a, k)) = inr (v, inr a, k)
      widen (inl s) = elim (Bool-cases b) [
        | inl t ↦ inl t
        | inr f ↦ inr (w, inl refl, (bytes_key.same_iff w.pub_key mine).0 (ground (arith, s, f)))
      ]

      spread :
          (w.pub_key == mine) ≡ false
          → ((v : Validator) → Among v l → v.pub_key ≢ mine)
          → (v : Validator) → Among v (w ∷ l)
          → v.pub_key ≢ mine
      spread f others v (inl e) k = ground (arith, e, f, bytes_key.same_iff w.pub_key mine)
      spread f others v (inr a) k = others v a k

module _ (env : Env) (svc : JoltService) (key_gen : List String → ℤ → Result (Bool × String))
    (updates : List TmValidator) (height : ℤ) (m : Membership) where
  -- The set of validators after the update, and what GetActiveValidators lists of it.
  abbrev pub set_after : ValidatorSet
  set_after = (update_validator_set env updates height m.validator_set).1

  abbrev pub active_after : List Validator
  active_after = (get_active_validators set_after).0

  handle_updated :
      (update_validator_set env updates height m.validator_set).0 ≡ ok tt
      → handle_update_validators env svc key_gen updates height m
        ≡ generate env svc key_gen height
            (collect_keys env m.my_validator_key active_after [] false)
            (record m { validator_set = set_after })
  unfolding handle_update_validators with_updated get_active_validators update_validator_set
  handle_updated h =
      ap (λ r. with_updated env svc key_gen r (record m { validator_set = set_after })) h

  generated :
      (pk : String) (creator : Bytes) (acc : ℕ × ℕ) (m' : Membership)
      → svc.operator ≡ ok creator
      → svc.query_account creator ≡ ok acc
      → IsInt64 (height +ℤ pos 1)
      → prepare_generated env svc key_gen height (ok (true, pk)) m' ≡ (
        ok tt,
        record m' {
          msg_send_cache = m'.msg_send_cache ++ pool_msg creator acc pk (height +ℤ pos 1) ∷ [];
        },
      )
  unfolding prepare_generated
  generated pk creator acc m' o q bounds =
      rw (o, prepare_generated, q)
        (ap (λ z. prepare_tss_pool (ok acc) creator pk (format_int z) m')
            (add64_fits height (pos 1) bounds)
          ∙ prepared creator acc pk (height +ℤ pos 1) m' bounds)

  -- Let the update of the set find no bad address, this node's key be known, and every listed
  -- validator's key have a text; let KeyGen over these texts, in the listed order, succeed with a key,
  -- and the operator and its account be known; let the next height fit an int64. If this node's key is
  -- that of a listed validator, HandleUpdateValidators puts exactly one pool message at the end of the
  -- cache, for that key at the next height; otherwise it leaves the cache. Either way the set is the
  -- updated one, and there is no error.
  pub handle_update_joins :
      (mine : Bytes) (text : Bytes → String) (pk : String) (creator : Bytes) (acc : ℕ × ℕ)
      → (update_validator_set env updates height m.validator_set).0 ≡ ok tt
      → m.my_validator_key ≡ ok mine
      → Marshals env mine text active_after
      → key_gen (key_texts text active_after) height ≡ ok (true, pk)
      → svc.operator ≡ ok creator
      → svc.query_account creator ≡ ok acc
      → IsInt64 (height +ℤ pos 1)
      → (Holds mine active_after
          × (handle_update_validators env svc key_gen updates height m ≡ (
            ok tt,
            record m {
              validator_set = set_after;
              msg_send_cache = m.msg_send_cache ++ pool_msg creator acc pk (height +ℤ pos 1) ∷ [];
            },
          )))
        ⊎ (((w : Validator) → Among w active_after → w.pub_key ≢ mine)
            × (handle_update_validators env svc key_gen updates height m
                ≡ (ok tt, record m { validator_set = set_after })))
  unfolding generate
  handle_update_joins mine text pk creator acc h my marshals gen o q bounds =
      let m' = record m { validator_set = set_after } in
      let keys = key_texts text active_after in
      let collected = λ (r : Result Bytes).
        generate env svc key_gen height (collect_keys env r active_after [] false) m' in
      let start = handle_updated h ∙ ap collected my in
      elim (collect-Holds env mine text active_after [] false marshals) [
        | inl (e, inl f) ↦ absurd (ground (arith, f))
        | inl (e, inr holds) ↦ inl (
          holds,
          start
              ∙ ap (λ r. generate env svc key_gen height r m') e
              ∙ ap (λ r. prepare_generated env svc key_gen height r m') gen
              ∙ generated pk creator acc m' o q bounds,
        )
        | inr (e, _, others) ↦
            inr (others, start ∙ ap (λ r. generate env svc key_gen height r m') e)
      ]
