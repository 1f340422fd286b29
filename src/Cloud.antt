-- ===== src/Cloud.antt =====
-- pkg/cloud: the volumes, snapshots and attachments of the Outscale API.
pub mod Types
pub mod Platform
pub mod Client
pub mod Retry
pub mod Read
pub mod Volumes
pub mod Attach
pub mod Snapshots
pub mod Interface
pub mod Metadata
pub mod Connection
