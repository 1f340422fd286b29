-- ===== src/Driver/Controller.antt =====
-- pkg/driver/controller.go: the controller service.
pub mod Parameters
pub mod Requirements
pub mod Volumes
pub mod Publish
pub mod Snapshots
