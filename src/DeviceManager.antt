-- ===== src/DeviceManager.antt =====
-- pkg/cloud/devicemanager: the names of devices, and which of them are being attached.
pub mod Allocator
pub mod Manager
