-- ===== src/DevModel.antt =====
-- eng/dev_model: the device model's pending requests, its message queue and its text helpers.
pub mod State
pub mod Cache
pub mod Ipc
pub mod Utils
pub mod Devices
pub mod Connections
