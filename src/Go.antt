-- ===== src/Go.antt =====
-- What the driver uses of Go itself: maps, strings, fixed-width integers, errors and methods.
pub mod Dict
pub mod Strings
pub mod Int
pub mod Error
pub mod Act
