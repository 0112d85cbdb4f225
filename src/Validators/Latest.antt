-- ===== src/Validators/Latest.antt =====
-- validators/validator.go: UpdateValidatorSet against the chain's updates, of which the last one for an
-- address counts.
use oppy_bridge.Common.{
  String, ◌≡◌, refl, sym, ap, ◌∙◌, ◌↔◌, ◌⊎◌, inl, inr, Option, some, none, false, List, [], ◌∷◌,
  ◌++◌, arith, if◌then◌else◌, ◌==◌, string_key, Bool-cases, Option-cases,
}
use oppy_bridge.Common.Int.{ℤ, pos, int_key}
use oppy_bridge.Common.Result.{Result, ok, err, Result-cases}
use oppy_bridge.External.{Bytes, Env}
use oppy_bridge.SyncMap.{SyncMap, load, load-store, load-delete}
use oppy_bridge.Validators.{
  Validator, ValidatorSet, TmValidator, updated, update_one, update_each, update_validator_set,
  values, get_active_validators,
}
use oppy_bridge.Validators.Keyed.{Among, IsKeyed, update_each-IsKeyed, values_iff}

abbrev pub or_else : Option Validator → Option Validator → Option Validator
or_else (some v) other = some v
or_else none other = other

module _ (env : Env) where
  -- The validator that an update describes, if its address has this text.
  abbrev pub describes : String → TmValidator → Option Validator
  describes key el = elim (env.cons_address_from_hex el.tm_address) [
    | err e ↦ none
    | ok address ↦ if env.cons_address_text address == key then some (updated address el) else none
  ]

  -- The validator that the last update for an address describes.
  abbrev pub last_update : String → List TmValidator → Option Validator
  last_update key [] = none
  last_update key (el ∷ l) = or_else (last_update key l) (describes key el)

  -- What an address has after the updates, from what it had.
  abbrev replaced : Option Validator → Option Validator → Option Validator
  replaced none before = before
  replaced (some v) before = if v.voting_power == pos 0 then none else some v

  load-update_one :
      (key : String) (address : Bytes) (el : TmValidator) (m : SyncMap String Validator)
      → load key (update_one env address el m) ≡ (
          if env.cons_address_text address == key
          then (if el.tm_power == pos 0 then none else some (updated address el))
          else load key m)
  unfolding update_one
  load-update_one key address el m = elim (Bool-cases (el.tm_power == pos 0)) [
    | inl gone ↦ rw (gone, update_one, load-delete (env.cons_address_text address) key m) refl
    | inr stays ↦
        rw
          (stays, update_one, load-store (env.cons_address_text address) (updated address el) m key)
          refl
  ]

  load-update_each :
      (key : String) (l : List TmValidator) (m : SyncMap String Validator)
      → (update_each env l m).0 ≡ ok tt
      → load key (update_each env l m).1 ≡ replaced (last_update key l) (load key m)
  unfolding update_each
  load-update_each key [] m h = refl
  load-update_each key (el ∷ l) m h =
      elim (Result-cases (env.cons_address_from_hex el.tm_address)) [
        | inr (e, bad) ↦ absurd (ended e bad)
        | inl (address, good) ↦
            let h' : (update_each env l (update_one env address el m)).0 ≡ ok tt = ground arith in
            ap (λ (o : Result (Unit {0}) × SyncMap String Validator). load key o.1)
              (read address good)
            ∙ load-update_each key l (update_one env address el m) h'
            ∙ one address good (last_update key l)
      ]
    where
      ended : (e : String) → env.cons_address_from_hex el.tm_address ≡ err e → ⊥
      ended e bad = ground arith

      read :
          (address : Bytes)
          → env.cons_address_from_hex el.tm_address ≡ ok address
          → update_each env (el ∷ l) m ≡ update_each env l (update_one env address el m)
      read address good = ground arith

      one :
          (address : Bytes)
          → env.cons_address_from_hex el.tm_address ≡ ok address
          → (last : Option Validator)
          → replaced last (load key (update_one env address el m))
            ≡ replaced (or_else last (describes key el)) (load key m)
      one address good (some v) = refl
      one address good none = ground (arith, load-update_one key address el m)

  -- After an update of the set that found no bad address, a validator is listed exactly if the last
  -- update for its address describes it and gives it a voting power other than 0, or if no update is for
  -- its address and it was listed before; the height is that of the update.
  pub update_then_active :
      (updates : List TmValidator) (height : ℤ) (v : ValidatorSet) (w : Validator)
      → IsKeyed env v.active_validators
      → (update_validator_set env updates height v).0 ≡ ok tt
      → (Among w (get_active_validators (update_validator_set env updates height v).1).0 ↔ (
          ((last_update (env.cons_address_text w.address) updates ≡ some w)
            × ((w.voting_power == pos 0) ≡ false))
          ⊎ ((last_update (env.cons_address_text w.address) updates ≡ none)
              × Among w (get_active_validators v).0)))
        × ((get_active_validators (update_validator_set env updates height v).1).1 ≡ height)
  unfolding update_validator_set get_active_validators
  update_then_active updates height v w k h = ((into, out_of), refl)
    where
      key : String
      key = env.cons_address_text w.address

      after : SyncMap String Validator
      after = (update_each env updates v.active_validators).1

      looked : load key after ≡ replaced (last_update key updates) (load key v.active_validators)
      looked = load-update_each key updates v.active_validators h

      listed : Among w (values after) ↔ (load key after ≡ some w)
      listed = values_iff env w after (update_each-IsKeyed env updates v.active_validators k)

      into :
          Among w (values after)
          → ((last_update key updates ≡ some w) × ((w.voting_power == pos 0) ≡ false))
            ⊎ ((last_update key updates ≡ none) × Among w (values v.active_validators))
      into a = elim (Option-cases (last_update key updates)) [
        | inl absent ↦ inr (
          absent,
          (values_iff env w v.active_validators k).1 (
              sym (looked ∙ ap (λ o. replaced o (load key v.active_validators)) absent)
              ∙ listed.0 a),
        )
        | inr (u, last) ↦ inl (ground (arith, listed.0 a, looked))
      ]

      out_of :
          ((last_update key updates ≡ some w) × ((w.voting_power == pos 0) ≡ false))
            ⊎ ((last_update key updates ≡ none) × Among w (values v.active_validators))
          → Among w (values after)
      out_of (inl (last, stays)) = listed.1 (ground (arith, looked))
      out_of (inr (absent, before)) = listed.1 (
          looked
          ∙ ap (λ o. replaced o (load key v.active_validators)) absent
          ∙ (values_iff env w v.active_validators k).0 before)

  stopped :
      (rest : List TmValidator) (bad : TmValidator) (e : String)
      → env.cons_address_from_hex bad.tm_address ≡ err e
      → (l : List TmValidator) (m : SyncMap String Validator) → (update_each env l m).0 ≡ ok tt
      → update_each env (l ++ bad ∷ rest) m ≡ (err e, (update_each env l m).1)
  unfolding update_each
  stopped rest bad e b [] m q = rw (b, update_each) refl
  stopped rest bad e b (el ∷ l) m q =
      elim (Result-cases (env.cons_address_from_hex el.tm_address)) [
        | inr (f, wrong) ↦ absurd (ended f wrong)
        | inl (address, good) ↦
            rw (good, update_each)
              (stopped rest bad e b l (update_one env address el m) (ground arith))
      ]
    where
      ended : (f : String) → env.cons_address_from_hex el.tm_address ≡ err f → ⊥
      ended f wrong = ground arith

  -- The first address that cannot be read ends the update with its error; the updates before it are done
  -- all the same, and the height is that of the update.
  pub update_stops :
      (before rest : List TmValidator) (bad : TmValidator) (e : String) (height : ℤ)
      (v : ValidatorSet)
      → (update_validator_set env before height v).0 ≡ ok tt
      → env.cons_address_from_hex bad.tm_address ≡ err e
      → update_validator_set env (before ++ bad ∷ rest) height v
        ≡ (err e, (update_validator_set env before height v).1)
  unfolding update_validator_set
  update_stops before rest bad e height v h b =
      ap
        (λ (o : Result (Unit {0}) × SyncMap String Validator).
          (o.0, record { active_validators = o.1; block_height = height }))
        (stopped rest bad e b before v.active_validators h)
