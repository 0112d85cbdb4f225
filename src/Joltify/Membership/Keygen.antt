-- ===== src/Joltify/Membership/Keygen.antt =====
-- joltifybridge/event.go: HandleUpdateValidators. An update of the validators starts the generation of a
-- key, whose pool message is then prepared.
pub mod Joins
use oppy_bridge.Common.{
  ℕ, String, Bool, true, false, ◌||◌, Option, none, some, List, [], ◌∷◌, ◌++◌, if◌then◌else◌, ◌==◌,
  bytes_key,
}
use oppy_bridge.Common.Int.{ℤ, pos, add64}
use oppy_bridge.Common.Result.{Result, ok, err}
use oppy_bridge.External.{Bytes, Env}
use oppy_bridge.Decimal.{format_int}
use oppy_bridge.Validators.{Validator, TmValidator, update_validator_set, get_active_validators}
use oppy_bridge.Joltify.Service.{JoltService}
use oppy_bridge.Joltify.Membership.{Membership, prepare_tss_pool}

module _ (env : Env) where
  -- The loop over the validators: their keys as text, and whether this node's key is one of them. The
  -- node's own key is decoded in every turn.
  unfoldable pub collect_keys :
      Result Bytes → List Validator → List String → Bool → Result (List String × Bool)
  collect_keys my_key [] pubkeys do_keygen = ok (pubkeys, do_keygen)
  collect_keys my_key (el ∷ l) pubkeys do_keygen = elim (env.marshal_pub_key el.pub_key) [
    | err e ↦ err e
    | ok pk ↦ elim my_key [
      | err e ↦ err e
      | ok mine ↦ collect_keys my_key l (pubkeys ++ pk ∷ []) (do_keygen || el.pub_key == mine)
    ]
  ]

-- KeyGen takes the keys and the height, and gives whether the status is Success, and the key.
module _ (env : Env) (svc : JoltService) (key_gen : List String → ℤ → Result (Bool × String)) where
  -- From the response of KeyGen on. Where the status is not Success, no error is returned.
  unfoldable pub prepare_generated :
      ℤ → Result (Bool × String) → Membership → Result (Unit {0}) × Membership
  prepare_generated height (err e) m = (err e, m)
  prepare_generated height (ok (false, pk)) m = (ok tt, m)
  prepare_generated height (ok (true, pk)) m = elim svc.operator [
    | err e ↦ (err e, m)
    | ok creator ↦
        prepare_tss_pool (svc.query_account creator) creator pk (format_int (add64 height (pos 1)))
          m
  ]

  -- From the keys of the validators on.
  unfoldable pub generate :
      ℤ → Result (List String × Bool) → Membership → Result (Unit {0}) × Membership
  generate height (err e) m = (err e, m)
  generate height (ok (pubkeys, false)) m = (ok tt, m)
  generate height (ok (pubkeys, true)) m = prepare_generated height (key_gen pubkeys height) m

  -- From the result of UpdateLatestValidator on.
  unfoldable pub with_updated : Result (Unit {0}) → Membership → Result (Unit {0}) × Membership
  with_updated (err e) m = (err e, m)
  with_updated (ok _) m =
      let active = get_active_validators m.validator_set in
      generate active.1 (collect_keys env m.my_validator_key active.0 [] false) m

  -- HandleUpdateValidators
  unfoldable pub handle_update_validators :
      List TmValidator → ℤ → Membership → Result (Unit {0}) × Membership
  handle_update_validators updates height m =
      let result = update_validator_set env updates height m.validator_set in
      with_updated result.0 (record m { validator_set = result.1 })
