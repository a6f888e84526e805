-- ===== src/Commissioning/Safety.antt =====
-- What the two sides do to their session tables, whatever frames arrive.
pub mod Device
pub mod Controller
pub mod Retry
pub mod Unrequested
