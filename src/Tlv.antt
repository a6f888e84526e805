-- ===== src/Tlv.antt =====
-- tlv/: Matter's tag-length-value format. `Types` holds the elements, `Reader` and `Writer` the
-- byte level of tlv.go; `Encoder` and `Decoder` are encoder.go and decoder.go for Go values, with
-- `StructTags` for the tags of struct fields and `Integers` for the integers of raw values.
-- `Payload` decodes a whole message, and `RoundTrip` is about encoding and decoding together.
pub mod Types
pub mod Reader
pub mod Integers
pub mod Writer
pub mod StructTags
pub mod Encoder
pub mod Decoder
pub mod Payload
pub mod RoundTrip
