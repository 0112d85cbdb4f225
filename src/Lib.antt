-- ===== src/Lib.antt =====
-- The joltify bridge: a node that moves tokens between a public chain (an EVM chain) and the joltify
-- chain. This library models its logic, file by file, and proves what makes it correct.
--
-- The program. bridge/joltifyBridge.go runs one loop over the events of both chains. pubchain/ reads the
-- blocks of the public chain: a top-up is an ERC20 transfer to the bridge's pool and a fee in the chain's
-- own coin, which are joined and become a request to mint. joltifybridge/ reads the transactions of the
-- joltify chain. Requests that fail go to a retry pool, one for each direction, and the funds of a retired
-- pool of signers are moved by a queue of their own. common/ and misc/ hold the pool record and the
-- conversions of keys and signatures, config/ the constants.
--
-- The files.
-- Common: shared names, Boolean tests, lists, int64 and uint64 arithmetic (Common/Int), Go's errors
--   (Common/Result), panics and blocking (Common/Outcome), the bounds of sdk.Int and sdk.Dec
--   (Common/SdkInt).
-- SyncMap: Go's sync.Map as an association list, with the laws of Load, Store and Delete.
-- Config: config/types.go; Config/Flags: config/config.go. Tss: tssclient/. External: what the packages
--   outside the repository provide.
-- Misc: misc/helper.go. Hex: encoding/hex, whose texts name transactions.
-- Pool: common/pool.go and lastTwoPools. RetryPool: AddItem, PopItem and Size of pubchain/types.go.
-- MoveFundQueue: AddMoveFundItem and the two pops of pubchain/tx_inbound.go.
-- Pubchain/State: PubChainInstance and the methods of its pools and queues. Pubchain/Inbound:
--   updateInboundTx, processInboundTx, Verify. Pubchain/Blocks: checkErc20, ProcessInBoundERC20,
--   processEachBlock, ProcessNewBlock, DeleteExpired.
-- Pubchain/Sending: tssSign, composeTx, SendToken and ProcessOutBound of pubchain/tx_send.go, moveBnb,
--   moveERC20Token, MoveFunds and CheckTxStatus of pubchain/tx_inbound.go.
-- Validators: validators/. Decimal: FormatInt and ParseInt of Go's strconv, which the code calls for the
--   height of a pool message.
-- Joltify/State: JoltifyChainInstance of joltifybridge/types.go and UpdatePool of tx_outbound.go.
--   Joltify/Outbound: processMsg and CheckOutBoundTx. Joltify/Service: ProcessInBound of mint.go,
--   MoveFunds of tx_outbound.go, CheckWhetherSigner and CheckTxStatus of validator.go.
--   Joltify/Membership: the validators and the pool messages of the same instance, which are a record of
--   their own: prepareTssPool and CheckAndUpdatePool of bridge.go, Keygen for HandleUpdateValidators of
--   event.go, Startup for InitValidators of validator.go.
--   Joltify/Queries: the gRPC queries of helper.go, from which a JoltService is made.
--   Joltify/Signing: genSendTx, signTx, GasEstimation, BroadcastTx and composeAndSend of bridge.go and
--   helper.go.
-- Bridge: NeedUpdate of bridge/helper.go and the cases of the loop of bridge/joltifyBridge.go, one module
--   to a case (Bridge/JoltBlock, Bridge/PubBlock, Bridge/Requests). Bridge/Loop: the loop as a step relation
--   over events, with the states that it reaches. Bridge/Sound: what every event keeps. Bridge/Room: that
--   no send of the loop waits where the channels have room. Bridge/Kept: where a request of either
--   direction may be between two events.
--   Bridge/Startup: main and NewBridgeService up to the loop.
--   Bridge/Settling and Bridge/Rotation: the order of the two pools and the move-fund queue's wait.
--   Bridge/Overwritten: two pools of that queue at one height.
--   Bridge/Deadlock: a send of the loop to itself.
-- Tests: the theorems at concrete inputs.
--
-- How the code is read. A method takes the instance and returns the new one. A call that may panic or
-- block for ever returns an Outcome. Errors are values that carry the fixed part of their text. Logging
-- and metrics are left out. A pointer to a struct is the struct, since the program holds no request at two
-- places; the pointers that matter are the keys of the retry pools, which are modelled. Range over a
-- sync.Map visits its entries in some order: theorems hold for every order. Heights are int64 or uint64
-- with their wrap-around; amounts are numbers, and what pubchain/tx_inbound.go makes an sdk.Int of panics
-- above 255 bits, and a product of sdk.Dec above 315 bits (Common/SdkInt). A Go string that
-- is hex text, a byte slice and an address are lists of bytes; other strings are String. Calls into
-- packages outside the repository are fields of External.Env; answers of the chains and the key server are
-- arguments, or fields of EthClient and JoltService, at the start of Host, TssHost and GrpcClient. A
-- goroutine that waits for a transaction's status is an entry of a list in the state, and its end an event
-- of its own.
-- The only fuel is that of big.Int.Bytes and of FormatInt, the number itself or its successor, which the
-- division exhausts last.
--
-- Not modelled: what happens inside a connection or a subscription, the shutdown after an interrupt,
-- HTTP, metrics, how the flag package reads a value, and the generated ERC20 binding.
pub mod Common
pub mod SyncMap
pub mod Config
pub mod Tss
pub mod Decimal
pub mod Validators
pub mod External
pub mod Misc
pub mod Hex
pub mod RetryPool
pub mod MoveFundQueue
pub mod Pool
pub mod Pubchain
pub mod Joltify
pub mod Bridge
mod Tests
