-- ===== src/Pool.antt =====
-- The lending pool, logics/impls/pool.
pub mod Errors
pub mod Interest
pub mod Scaled
pub mod Exchange
pub mod Environment
pub mod State
pub mod Deployment
pub mod Views
pub mod Accrual
pub mod Queries
pub mod Collateral
pub mod Lending
pub mod Liquidation
pub mod Reserves
pub mod Delegation
pub mod Admin
pub mod Transfer
pub mod Calls
pub mod Governed
pub mod Rated
pub mod Ledger
pub mod Guards
pub mod Repayment
pub mod Overpayment
pub mod Loan
pub mod Deposit
pub mod Redemption
pub mod Seizure
pub mod Histories
pub mod Invariants
pub mod Runs
pub mod Steps
pub mod Tests
