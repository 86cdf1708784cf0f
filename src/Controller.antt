-- ===== src/Controller.antt =====
-- The controller, logics/impls/controller.
pub mod Errors
pub mod Health
pub mod Liquidity
pub mod SeizeTokens
pub mod Markets
pub mod Peers
pub mod Account
pub mod Allowed
pub mod Tests
