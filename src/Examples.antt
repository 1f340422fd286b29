-- ===== src/Examples.antt =====
-- The theorems at concrete inputs, and tests.
mod Devices
mod Creating
mod Again
mod Expanding
mod Snapshots
mod Detaching
mod Unpublishing
mod Republishing
mod Commands
mod Sizes
mod Setup
mod Api
mod Controllers
mod Waits
mod Taints
mod Unstaging
mod Texts
mod Box
mod Staging
mod Attachments
mod Startup
mod Parameters
mod Publishing
