-- ===== src/Validators/Keyed.antt =====
-- validators/validator.go: the map's keys are the texts of its validators' addresses, each once, and
-- GetActiveValidators lists the map.
use oppy_bridge.Common.{
  String, ◌≡◌, refl, sym, ap, ◌∙◌, subst, ◌≢◌, ◌↔◌, ◌⊎◌, inl, inr, Option, none, some, List, [],
  ◌∷◌, arith, ◌==◌, string_key, Bool-cases, All, beq_refl, beq-ne,
}
use oppy_bridge.Common.Int.{pos, int_key}
use oppy_bridge.Common.Result.{Result-cases}
use oppy_bridge.External.{Bytes, Env}
use oppy_bridge.SyncMap.{SyncMap, load, store}
use oppy_bridge.SyncMap.Distinct.{
  IsDistinct, store-All, delete-All, store-IsDistinct, delete-IsDistinct,
}
use oppy_bridge.Validators.{
  Validator, TmValidator, updated, setup_each, update_one, update_each, values,
}

-- A list holds a value.
abbrev pub Among : {A : Type 0} → A → List A → Type 0
Among a [] = ⊥
Among a (x ∷ xs) = (x ≡ a) ⊎ Among a xs

module _ (env : Env) where
  abbrev pub OwnKey : String × Validator → Type 0
  OwnKey e = e.0 ≡ env.cons_address_text e.1.address

  -- Every validator is under the text of its address, and no text is there twice.
  pub record IsKeyed (m : SyncMap String Validator) : Type 0 where
    pub distinct : IsDistinct m
    pub own : All OwnKey m

  store-IsKeyed :
      (v : Validator) (m : SyncMap String Validator)
      → IsKeyed m
      → IsKeyed (store (env.cons_address_text v.address) v m)
  store-IsKeyed v m k = record {
    distinct = store-IsDistinct (env.cons_address_text v.address) v m k.distinct;
    own = store-All OwnKey (env.cons_address_text v.address) v m refl k.own;
  }

  update_one-IsKeyed :
      (address : Bytes) (el : TmValidator) (m : SyncMap String Validator)
      → IsKeyed m
      → IsKeyed (update_one env address el m)
  unfolding update_one
  update_one-IsKeyed address el m k = elim (Bool-cases (el.tm_power == pos 0)) [
    | inl gone ↦
        rw (gone, update_one)
          (record {
            distinct = delete-IsDistinct (env.cons_address_text address) m k.distinct;
            own = delete-All OwnKey (env.cons_address_text address) m k.own;
          })
    | inr stays ↦ rw (stays, update_one) (store-IsKeyed (updated address el) m k)
  ]

  pub setup_each-IsKeyed :
      (l : List Validator) (m : SyncMap String Validator) → IsKeyed m → IsKeyed (setup_each env l m)
  unfolding setup_each
  setup_each-IsKeyed [] m k = k
  setup_each-IsKeyed (el ∷ l) m k =
      setup_each-IsKeyed l (store (env.cons_address_text el.address) el m) (store-IsKeyed el m k)

  pub update_each-IsKeyed :
      (l : List TmValidator) (m : SyncMap String Validator)
      → IsKeyed m
      → IsKeyed (update_each env l m).1
  unfolding update_each
  update_each-IsKeyed [] m k = k
  update_each-IsKeyed (el ∷ l) m k = elim (Result-cases (env.cons_address_from_hex el.tm_address)) [
    | inr (e, bad) ↦ rw (bad, update_each) k
    | inl (address, good) ↦
        rw (good, update_each)
          (update_each-IsKeyed l (update_one env address el m) (update_one-IsKeyed address el m k))
  ]

  load-absent :
      (key : String) (m : SyncMap String Validator)
      → All (λ (e : String × Validator). e.0 ≢ key) m
      → load key m ≡ none
  unfolding load
  load-absent key [] a = refl
  load-absent key ((j, w) ∷ m) a = rw (beq-ne j key a.0) (load-absent key m a.1)

  load-Among :
      (key : String) (w : Validator) (m : SyncMap String Validator)
      → load key m ≡ some w
      → Among w (values m)
  unfolding load
  load-Among key w [] h = cc
  load-Among key w ((j, v) ∷ m) h = elim (Bool-cases (j == key)) [
    | inl same ↦ inl (ground arith)
    | inr other ↦ inr (load-Among key w m (ground arith))
  ]

  Among-load :
      (w : Validator) (m : SyncMap String Validator)
      → IsKeyed m
      → Among w (values m)
      → load (env.cons_address_text w.address) m ≡ some w
  unfolding load
  Among-load w [] k h = absurd h
  Among-load w ((j, v) ∷ m) k (inl e) =
      let here : j ≡ env.cons_address_text w.address =
        k.own.0 ∙ ap (λ (x : Validator). env.cons_address_text x.address) e in
      rw (here, beq_refl (env.cons_address_text w.address), e) refl
  Among-load w ((j, v) ∷ m) k (inr h) =
      let key = env.cons_address_text w.address in
      let found = Among-load w m (record { distinct = k.distinct.1; own = k.own.1 }) h in
      elim (Bool-cases (j == key)) [
        | inl same ↦
            let here : j ≡ key = (string_key.same_iff j key).0 same in
            let absent =
              load-absent key m
                (subst (λ t. All (λ (e : String × Validator). e.0 ≢ t) m) here k.distinct.0) in
            absurd (none_some (sym absent ∙ found))
        | inr other ↦ rw other found
      ]
    where
      none_some : Option.none ≡ some w → ⊥
      none_some q = cc

  -- GetActiveValidators lists the map: a validator is listed exactly if it is found under its own key.
  pub values_iff :
      (w : Validator) (m : SyncMap String Validator)
      → IsKeyed m
      → (Among w (values m) ↔ (load (env.cons_address_text w.address) m ≡ some w))
  values_iff w m k = (Among-load w m k, load-Among (env.cons_address_text w.address) w m)
