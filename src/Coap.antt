-- ===== src/Coap.antt =====
-- eng/coap: the CoAP message codec, and the local server's send list, resources and
-- observers.
pub mod Message
pub mod Serialize
pub mod Deserialize
pub mod Codec
pub mod SendList
pub mod Cloud
pub mod Resource
pub mod Observe
mod Runs
