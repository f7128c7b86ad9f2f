-- ===== src/Tests.antt =====
-- Concrete runs of the theorems, on small inputs.
pub mod Devices
pub mod Drivers
pub mod Tasks
pub mod Texts
pub mod Files
pub mod Calls
pub mod Launch
pub mod Library
pub mod Boot
pub mod Reach
pub mod Typing
pub mod Commands
pub mod Pids
