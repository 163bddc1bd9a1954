-- ===== src/Device.antt =====
-- Devices of the mesh network: src/device, src/sensor and the requests sent to devices.
pub mod Mac
pub mod InProgress
pub mod Packets
pub mod State
pub mod AppList
pub mod Lists
pub mod Tree
pub mod Request
pub mod Resource
