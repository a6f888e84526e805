-- ===== src/Tlv/RoundTrip.antt =====
-- Go values that are encoded, read and decoded again. `Items` is about the reader and containers,
-- `Decodes` about the decoder.
pub mod Items
pub mod Scalars
pub mod Children
pub mod Fits
pub mod Structs
pub mod Mismatch
