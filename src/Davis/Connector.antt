-- ===== src/Davis/Connector.antt =====
-- The connector of a Vantage Pro 2 station: the state machine of `VantagePro2Connector`
-- (src/davis/vantagepro2_connector.h and src/davis/vantagepro2_connector.cpp).
-- `State` has the states and the object, `Actions` what starts or cancels an asynchronous operation,
-- `Identify`, `Download` and `SetTime` the branches of `handleEvent`, `Machine` the completions.
pub mod State
pub mod Actions
pub mod Identify
pub mod Download
pub mod SetTime
pub mod Machine
pub mod Invariant
pub mod Reach
pub mod Timeouts
pub mod Pages
pub mod Faults
