-- ===== src/Commissioning.antt =====
-- commissioning/: the PASE handshake. `Messages` is messages.go, `Pase` is commissioning.go, and
-- `Commissioner` and `Commissionee` are the two sides. The other modules are about the frames that
-- these exchange, a whole handshake, and frames of any origin.
pub mod Messages
pub mod Handler
pub mod Opcodes
pub mod Pase
pub mod Commissioner
pub mod Commissionee
pub mod Frames
pub mod Fitting
pub mod Handshake
pub mod Safety
