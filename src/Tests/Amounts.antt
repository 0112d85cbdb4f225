-- ===== src/Tests/Amounts.antt =====
-- The two transactions of the tests are within the bounds of a block.
use oppy_bridge.Common.{
  ℕ, ◌^◌, ◌<◌, ◌≡◌, subst, List, [], ◌∷◌, arith, nat_key, string_key, bytes_key, All,
}
use oppy_bridge.Common.Result.{Result, ok, err}
use oppy_bridge.External.{Bytes, Transaction}
use oppy_bridge.SyncMap.{load}
use oppy_bridge.Pubchain.State.{PubChainInstance}
use oppy_bridge.Pubchain.Inbound.Amounts.{Amounts}
use oppy_bridge.Pubchain.Blocks.{check_erc20}
use oppy_bridge.Pubchain.Blocks.Amounts.{Fits}
use oppy_bridge.Tests.Fixtures.{toy_env, transfer_tx, payment_tx}

abbrev pub two_txs : List Transaction
two_txs = transfer_tx ∷ payment_tx ∷ []

abbrev Small : Result (Bytes × ℕ) → Type 0
Small (ok (to, amount)) = amount < 2 ^ 255
Small (err e) = Unit {0}

pub two-Fit : (pi : PubChainInstance) → All (Fits toy_env pi) two_txs
unfolding check_erc20
two-Fit pi = (
  (omega arith, omega arith, λ to to_addr amount t a c b. subst Small c (omega arith)),
  ((omega arith, omega arith, λ to to_addr amount t a c b. subst Small c tt), tt),
)

pub empty-Amounts :
    (rest : ℕ) (pi : PubChainInstance)
    → rest < 2 ^ 255
    → pi.pending_inbounds ≡ []
    → pi.pending_inbounds_bnb ≡ []
    → Amounts rest pi
unfolding load
empty-Amounts rest pi h t b = record {
  rest_fits = h;
  tokens = λ k tx l. ground (arith, t, l);
  fees = λ k x l. ground (arith, b, l);
}
