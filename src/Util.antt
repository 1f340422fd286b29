-- ===== src/Util.antt =====
-- pkg/util: sizes, the endpoint, and the settings of the waits.
pub mod Size
pub mod Endpoint
pub mod Version
pub mod Resolvers
