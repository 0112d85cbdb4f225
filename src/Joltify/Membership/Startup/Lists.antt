-- ===== src/Joltify/Membership/Startup/Lists.antt =====
-- joltifybridge/validator.go: the validators that an instance knows when the loop starts.
use oppy_bridge.Common.{
  String, ◌≡◌, refl, sym, ap, ◌∙◌, subst, ◌↔◌, inl, inr, Option, none, some, List, [], ◌∷◌, ◌++◌,
  arith, if◌then◌else◌, ◌==◌, nat_key, string_key, bytes_key,
}
use oppy_bridge.Common.Int.{ℤ}
use oppy_bridge.Common.Result.{Result, ok, Result-cases}
use oppy_bridge.External.{Bytes, Env}
use oppy_bridge.SyncMap.{SyncMap, load, store, load-store}
use oppy_bridge.Validators.{
  Validator, setup_each, setup_validator_set, new_validator, get_active_validators, values,
}
use oppy_bridge.Validators.Keyed.{Among, IsKeyed, setup_each-IsKeyed, values_iff}
use oppy_bridge.Validators.Latest.{or_else}
use oppy_bridge.Joltify.Membership.{Membership}
use oppy_bridge.Joltify.Membership.Startup.{
  TipValidator, StartupService, local_vals, do_init_validator, init_synced, init_validators,
}

module _ (env : Env) where
  -- The last validator of a list whose address has this text.
  abbrev pub last_of : String → List Validator → Option Validator
  last_of key [] = none
  last_of key (v ∷ l) =
      or_else (last_of key l) (if env.cons_address_text v.address == key then some v else none)

  load-setup_each :
      (key : String) (l : List Validator) (m : SyncMap String Validator)
      → load key (setup_each env l m) ≡ or_else (last_of key l) (load key m)
  unfolding setup_each
  load-setup_each key [] m = refl
  load-setup_each key (v ∷ l) m =
      load-setup_each key l (store (env.cons_address_text v.address) v m) ∙ one (last_of key l)
    where
      one :
          (last : Option Validator)
          → or_else last (load key (store (env.cons_address_text v.address) v m))
            ≡ or_else
                (or_else last (if env.cons_address_text v.address == key then some v else none))
                (load key m)
      one (some w) = refl
      one none = ground (arith, load-store (env.cons_address_text v.address) v m key)

  or_else-none : (o : Option Validator) → or_else o none ≡ o
  or_else-none (some w) = refl
  or_else-none none = refl

  -- The validators, in their order, with the key, the address and the power of those of the tip.
  abbrev pub ReadsAs : List TipValidator → List Validator → Type 0
  ReadsAs [] [] = Unit {0}
  ReadsAs (t ∷ ts) (v ∷ vs) =
      (t.tip_pub_key ≡ ok v.pub_key)
      × (env.cons_address_from_bech32 t.tip_address ≡ ok v.address)
      × (v.voting_power ≡ t.tip_power)
      × ReadsAs ts vs
  ReadsAs [] (v ∷ vs) = ⊥
  ReadsAs (t ∷ ts) [] = ⊥

  append_one :
      (before : List Validator) (v : Validator) (after : List Validator)
      → (before ++ v ∷ []) ++ after ≡ before ++ v ∷ after
  append_one [] v after = refl
  append_one (w ∷ before) v after = ap (λ l. w ∷ l) (append_one before v after)

  append_none : (l : List Validator) → l ++ [] ≡ l
  append_none [] = refl
  append_none (w ∷ l) = ap (λ l. w ∷ l) (append_none l)

  local_vals-ReadsAs :
      (tips : List TipValidator) (before vals : List Validator)
      → local_vals env tips before ≡ ok vals
      → (after : List Validator) × (vals ≡ before ++ after) × ReadsAs tips after
  unfolding local_vals
  local_vals-ReadsAs [] before vals e = ([], ground (arith, append_none before, e), tt)
  local_vals-ReadsAs (t ∷ tips) before vals e = elim (Result-cases t.tip_pub_key) [
    | inr (x, bad) ↦ absurd (ground (arith, bad, e))
    | inl (pk, key) ↦ elim (Result-cases (env.cons_address_from_bech32 t.tip_address)) [
      | inr (x, bad) ↦ absurd (ground (arith, key, bad, e))
      | inl (adr, address) ↦
          let v : Validator = record { address = adr; pub_key = pk; voting_power = t.tip_power } in
          let rest : local_vals env tips (before ++ v ∷ []) ≡ ok vals =
            ground (arith, key, address, e) in
          let (after, same, reads) = local_vals-ReadsAs tips (before ++ v ∷ []) vals rest in
          (v ∷ after, same ∙ append_one before v after, (key, address, refl, reads))
    ]
  ]

  -- The validators of the tip were all read, and the set lists, of each address, the last one of them.
  abbrev pub Lists : ℤ → List TipValidator → Membership → Type 0
  Lists height tips m =
      (vals : List Validator) × ReadsAs tips vals
      × IsKeyed env m.validator_set.active_validators
      × (m.validator_set.block_height ≡ height)
      × (m.msg_send_cache ≡ [])
      × ((w : Validator)
          → Among w (get_active_validators m.validator_set).0
            ↔ (last_of (env.cons_address_text w.address) vals ≡ some w))

  setup-Lists :
      (my_key : Result Bytes) (height : ℤ) (tips : List TipValidator) (vals : List Validator)
      → local_vals env tips [] ≡ ok vals
      → Lists height tips (record {
        validator_set = setup_validator_set env vals height new_validator;
        my_validator_key = my_key;
        msg_send_cache = [];
      })
  unfolding setup_validator_set new_validator get_active_validators load
  setup-Lists my_key height tips vals e = (vals, reads, keyed, refl, refl, lists)
    where
      reads : ReadsAs tips vals
      reads =
          let (after, same, r) = local_vals-ReadsAs tips [] vals e in
          subst (ReadsAs tips) (sym same) r

      keyed : IsKeyed env (setup_each env vals [])
      keyed = setup_each-IsKeyed env vals [] (record { distinct = tt; own = tt })

      found : (key : String) → load key (setup_each env vals []) ≡ last_of key vals
      found key = load-setup_each key vals [] ∙ or_else-none (last_of key vals)

      lists :
          (w : Validator)
          → Among w (values (setup_each env vals []))
            ↔ (last_of (env.cons_address_text w.address) vals ≡ some w)
      lists w =
          let listed = values_iff env w (setup_each env vals []) keyed in
          (
            λ a. sym (found (env.cons_address_text w.address)) ∙ listed.0 a,
            λ q. listed.1 (found (env.cons_address_text w.address) ∙ q),
          )

  do_init-Lists :
      (my_key : Result Bytes) (height : ℤ) (tips : List TipValidator) (m : Membership)
      → do_init_validator env my_key height tips ≡ ok m
      → Lists height tips m
  unfolding do_init_validator
  do_init-Lists my_key height tips m q = elim (Result-cases (local_vals env tips [])) [
    | inr (e, bad) ↦ absurd (ground (arith, bad, q))
    | inl (vals, good) ↦
        let made : Membership = record {
          validator_set = setup_validator_set env vals height new_validator;
          my_validator_key = my_key;
          msg_send_cache = [];
        } in
        let same : made ≡ m = ground (arith, good, q) in
        subst (Lists height tips) same (setup-Lists my_key height tips vals good)
  ]

  synced_asks :
      (svc : StartupService) (m : Membership)
      → init_synced env svc ≡ ok m
      → (my_key : Result Bytes) × (height : ℤ) × (tips : List TipValidator) × (svc.tip_validators
          ≡ ok (height, tips))
        × (do_init_validator env my_key height tips ≡ ok m)
  unfolding init_synced
  synced_asks svc m q = elim (Result-cases svc.node_info) [
    | inr (e, bad) ↦ absurd (ground (arith, bad, q))
    | inl (_, node) ↦ elim (Result-cases svc.status_page) [
      | inr (e, bad) ↦ absurd (ground (arith, node, bad, q))
      | inl (page, status) ↦ elim (Result-cases (svc.status_key page)) [
        | inr (e, bad) ↦ absurd (ground (arith, node, status, bad, q))
        | inl (my_key, key) ↦ elim (Result-cases svc.tip_validators) [
          | inr (e, bad) ↦ absurd (ground (arith, node, status, key, bad, q))
          | inl ((height, tips), good) ↦
              (my_key, height, tips, good, ground (arith, node, status, key, good, q))
        ]
      ]
    ]
  ]

  -- Where InitValidators returns without an error, the node has given its set of validators, and the key
  -- and the address of every one of them could be read. The height is that of the set, no pool message is
  -- there, and every validator is under its own address. Take the validators of the set in their order,
  -- each with the key and the address so read and its power: exactly those are listed that are the last of
  -- them with their address.
  pub init_validators-Lists :
      (svc : StartupService) (m : Membership)
      → init_validators env svc ≡ ok m
      → (height : ℤ) × (tips : List TipValidator) × (svc.tip_validators ≡ ok (height, tips))
        × Lists height tips m
  unfolding init_validators init_synced
  init_validators-Lists svc m q =
      let synced : init_synced env svc ≡ ok m = ground (arith, q) in
      let (my_key, height, tips, good, made) = synced_asks svc m synced in
      (height, tips, good, do_init-Lists my_key height tips m made)
