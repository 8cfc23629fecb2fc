-- ===== src/Mqtt.antt =====
-- eng/mqtt: the MQTT client on top of the packet library.
pub mod Status
pub mod Topic
pub mod Link
pub mod Publish
pub mod Cycle
pub mod Subscribe
