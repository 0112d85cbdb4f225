-- ===== src/Pubchain/Blocks/Selector.antt =====
-- pubchain/tx_inbound.go: checkErc20 asks the ABI for the method "transfer" by name, and does not compare
-- the selector at the head of the input with it.
use oppy_bridge.Common.{
  drop-append_at, lt→ltb, ℕ, ◌<◌, ◌≡◌, true, false, [], ◌∷◌, ◌++◌, arith, ltb, nat_key, string_key,
  bytes_key, length, length-append,
}
use oppy_bridge.Common.Result.{ok, err}
use oppy_bridge.External.{Bytes, Env, AbiValue}
use oppy_bridge.Pubchain.Blocks.{check_erc20}

-- Two calls with the same arguments get the same answer, whichever four bytes select the method: a
-- call of another method with an address and a number, such as an approval, is taken for a transfer.
-- An input of fewer than four bytes is an error.
pub check_erc20_selector :
    (env : Env) (selector other args : Bytes)
    → length selector ≡ 4
    → length other ≡ 4
    → env.has_transfer ≡ true
    → (check_erc20 env (selector ++ args) ≡ check_erc20 env (other ++ args))
      × ((to : Bytes) (amount : ℕ)
          → env.unpack_transfer args ≡ ok (AbiValue.address to ∷ AbiValue.integer amount ∷ [])
          → check_erc20 env (other ++ args) ≡ ok (to, amount))
      × ((short : Bytes) → length short < 4 → check_erc20 env short ≡ err "invalid data")
unfolding check_erc20
check_erc20_selector env selector other args h k has = (
  rw (
    drop-append_at 4 selector args h,
    drop-append_at 4 other args k,
    long selector h,
    long other k,
  ),
  λ to amount u. rw (has, long other k, drop-append_at 4 other args k, u),
  λ short lt. rw (has, lt→ltb (length short) 4 lt),
)
  where
    long : (s : Bytes) → length s ≡ 4 → ltb (length (s ++ args)) 4 ≡ false
    long s e = ground (arith, length-append s args)
