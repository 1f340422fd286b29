-- ===== src/Driver/Node.antt =====
-- pkg/driver: the node service.
pub mod Host
pub mod Mounter
pub mod Luks
pub mod Devices
pub mod Mounts
pub mod Stage
pub mod Unstage
pub mod Publish
pub mod Volumes
