-- ===== src/Lib.antt =====
-- The verification of the Starlay lending protocol: shallow models of its pools, its interest rate model
-- and its calculations, translated from the Rust sources, with the theorems that make them correct.
--
-- Parts and files
--   Prelude       Boolean tests, outcomes (`Ok`, `Err`, panic), maps, the monad of messages, and `Steps`,
--                 the calculus that lifts a relation from the writes of a message to the whole message.
--   Words         u128 and U256. The crates are compiled with `overflow-checks = false`
--                 (logics/Cargo.toml), so u128 `+` and `-` wrap; U256 panics on overflow.
--   Math          logics/impls/exp_no_err.rs (Exp), wad_ray_math.rs (WadRay), percent_math.rs (Percent);
--                 Rounding says what a rounding division may return.
--   Rates         logics/impls/interest_rate_model.rs.
--   Controller    logics/impls/controller/utils.rs: Health, Liquidity, SeizeTokens; Errors is the error
--                 type of logics/traits/controller.rs. Markets is the storage and the writing messages of
--                 logics/impls/controller/mod.rs, with the price oracle's answers as a parameter, and its
--                 Deployment the constructor of contracts/controller/lib.rs. Account
--                 adds up the positions of an account (`_calculate_user_account_data` is
--                 `user_account_data`), and Allowed is the checks that pools ask for; what the controller
--                 calls is the parameter `Peers` of the file of that name.
--   Pool          logics/impls/pool: Interest, Scaled and Exchange are utils.rs; State is `Data` of mod.rs,
--                 Views its reads, and Accrual, Collateral, Lending, Liquidation, Reserves, Delegation,
--                 Admin and Transfer its messages and their internals, with the overrides and events of
--                 contracts/pool/lib.rs. `_mint` is `mint_inner`, `_borrow` is `borrow_inner`, and so on.
--                 Calls collects the messages in one type and defines the histories of a pool. Governed
--                 puts the controller's checks in the place of the pool's parameter, and Rated the
--                 interest rate model. Deployment is the constructors of contracts/pool/lib.rs, and
--                 Queries the answers that are computed. Runs takes a successful message apart; Deposit,
--                 Redemption and Seizure use it on `_mint`, `_redeem` and `_seize`, Repayment and Loan
--                 on `_repay_borrow` and `_borrow`; Overpayment puts a successful repayment together.
--   Manager       logics/impls/manager.rs with the roles of contracts/manager/lib.rs. Its Laws join it
--                 to the controller.
--   PriceOracle   logics/impls/price_oracle.rs.
--   Leverager     logics/impls/leverager.rs: Environment, Views (`_get_health_factor`, `_withdrawable`),
--                 Looping (`_loop`) and Closing (`_close`).
--   FlashloanGateway
--                 logics/impls/flashloan_gateway.rs.
--   FlashloanReceiver
--                 logics/impls/flashloan_receiver.rs, which fills the gateway's parameter for receivers.
--   Weth          logics/impls/weth.rs, the wrapped native token.
--   WethGateway   logics/impls/weth_gateway.rs.
--   Lens          contracts/lens/lib.rs; its Laws put the modelled controller behind it.
--
-- How the parts interact
--   A pool message is a function from the caller's context and the state to an outcome with the new
--   state. The state holds the pool's storage, the storage of the token library, the storage of all other
--   contracts, and the events. The token library (openbrush PSP22) is the parameter `TokenLibrary`, the
--   controller, the rate model, the incentives controller, the underlying token and other pools are the
--   parameter `Contracts`; a theorem that assumes something of them says so. An `Err` and a panic carry
--   no state, since the runtime drops what a failed message wrote.
--   The code allows re-entry in two calls, `mint_allowed` of the controller and `transfer_from` of the
--   underlying token. Messages that come back into the pool during such a call are not modelled: a call
--   of another contract leaves the pool's own storage as it was.
--
-- Bounds
--   The loops run over lists or over a counter, and are structural recursion, with two exceptions: the
--   `while` of `_withdrawable` and that of `_close` in the leverager. Both take the number of rounds that
--   the gas of the call pays for, and trap when it is used up, as the runtime does. The first needs at
--   most as many rounds as the amount that it starts with, if it ends at all. The second calls pools
--   and is bounded by gas alone.
--   Account ids are natural numbers, the zero address is 0.
--
-- Not modelled
--   The getters of the pool and the gateways that read one field; the events of contracts other than the
--   pool, except MarketListed; the mock of the incentives controller; hashing and encoding, deployment
--   scripts and tests.
pub mod Prelude
pub mod Words
pub mod Math
pub mod Rates
pub mod Controller
pub mod Pool
pub mod Manager
pub mod PriceOracle
pub mod Leverager
pub mod FlashloanGateway
pub mod FlashloanReceiver
pub mod Lens
pub mod Weth
pub mod WethGateway
