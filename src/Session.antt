-- ===== src/Session.antt =====
-- session/session.go: the encryption boundary. `Window` is the inbound replay window, `Manager`
-- the session table with encryption and decryption.
pub mod Window
pub mod Manager
