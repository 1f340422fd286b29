-- ===== src/Driver.antt =====
-- pkg/driver: the services of the CSI driver.
pub mod Requests
pub mod Options
pub mod Controller
pub mod InFlight
pub mod Node
pub mod Server
pub mod Capabilities
