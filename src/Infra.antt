-- ===== src/Infra.antt =====
-- eng/infra: timers and text helpers that the other parts share.
pub mod Timer
pub mod Hex
pub mod Json
pub mod Numbers
