-- ===== src/Examples.antt =====
-- Runs of the code on small inputs, and an instance of every theorem that has hypotheses.
mod Parameters
mod Message
mod Session
mod Crypto
mod Tlv
mod Values
mod Transport
mod Commissioning
mod Samples
mod Model
