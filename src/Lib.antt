-- ===== src/Lib.antt =====
-- A verification library for go-matter, an implementation of the Matter smart home protocol.
--
-- The program's parts that are modelled, from the bottom up:
--   message/   two headers in front of a payload, and a fluent builder of frames. `Message.Header`
--              and `Message.PayloadHeader` are `Header` and `PayloadHeader` with `Marshal` and
--              `Unmarshal`, `Message.Frame` is `Frame.Encode` and `Decode`, `Message.Flags` is
--              flags.go and `Message.Builder` is builder.go.
--   tlv/       the tag-length-value encoding. `Tlv.Types`, `Tlv.Reader` and `Tlv.Writer` are
--              tlv.go, `Tlv.Encoder` is encoder.go, `Tlv.Decoder` with `Tlv.Integers` is decoder.go,
--              and `Tlv.StructTags` is what both make of a field's `tlv` tag. A Go value is what
--              reflection shows of it; the types that `Decode` writes to are a universe (`GoType` in
--              `Tlv.Decoder.GoTypes`), whose values are a family over it (`El`).
--   crypto/    `Crypto.Nonce` and `Crypto.Provider` are crypto.go, `Crypto.SessionKeys` is
--              session_keys.go, `Crypto.Pbkdf` is pbkdf.go, and `Crypto.Spake` with its children
--              `Init`, `Group`, `Transcript`, `Prover` and `Verifier` is spake2plus.go. `Crypto.BigInt` is
--              what these use of math/big.
--   session/   `Session.Window` is the replay window of session.go, `Session.Manager` its sessions
--              and their table, which encrypt and decrypt the payload of a frame with the keys
--              that crypto/ derives and the counter that the message header carries.
--   commissioning/  the PASE handshake, which uses all of the above. `Commissioning.Messages` is
--              messages.go, `Commissioning.Pase` and `Tlv.Payload` are commissioning.go,
--              `Commissioning.Commissioner` and `Commissioning.Commissionee` the two sides, and
--              `Commissioning.Opcodes` is what they use of message/opcodes.go. A handler changes its
--              side and may fail (`Commissioning.Handler`); the frame that it sends, always the last
--              thing that it does, is its result. `Commissioning.Handshake` lets the two sides
--              answer one another over the wire, `Commissioning.Safety` is about any frames.
--   transport/ `Transport` is the encoding of `Send` and the receive loop of `Start`, over datagrams
--              with the addresses that they come from.
--   samples/commissioning/  the programs that run the handshake. `Samples.Device` and
--              `Samples.Controller` are the two `main`s with their messengers, as functions of the
--              datagrams that arrive, which keep the datagrams that they write; `Samples.Network`
--              hands the datagrams of the one to the other.
--   model/     `Model` is the data store of model.go behind the interface of
--              interaction/interaction.go, `Model.DataModel` is datamodel/datamodel.go.
-- The children of these modules hold proofs. `Base` holds the shared helpers, `Examples` the runs
-- on small inputs and an instance of each theorem that has hypotheses.
--
-- How the code is modelled. A number is a natural number and a byte is one below 256; where the Go
-- type wraps, `% 2 ^ w` is written out. A `[]byte` is a list, and a nil slice is an empty one. A Go
-- function that returns a value and an error returns a `Result`; a method that changes its receiver
-- returns the receiver after it, beside the error where the receiver is used again after one. A
-- pointer is passed as its value: no object of the modelled packages is shared while it changes,
-- except for a session, which is kept in its table alone, and for the
-- session manager, which the record of a side holds during the handshake.
--
-- Parameters. What the code imports from other modules is an argument, with the laws that its
-- documentation gives: AES-CCM (`Ccm`: opening undoes sealing for a plaintext of up to 2^16 - 1
-- bytes; sealing a longer one may panic) and HKDF (`Hkdf`: up to 255 blocks can be read) in
-- `Crypto.Provider`, P-256 (`Curve`: adding and subtracting cancel, multiples of
-- the base point commute, an encoded point has 65 bytes and decodes), SHA-256 and HMAC (`Hashes`:
-- a digest has 32 bytes) in `Crypto.Spake.Group`, PBKDF2 in `Crypto.Pbkdf`. The random source gives
-- each handler its bytes or an error (`Randomness`). `Examples.Parameters` has small functions in
-- their place.
--
-- Fuel. `ReadContainerChildren` loops and calls itself; `read_children` does so on fuel, which is
-- one more than the number of bytes left, since each element takes at least one. The bytes of a
-- big integer are written with room for 40, the size of the largest number that is read. A datagram
-- is read into a buffer of 2048 bytes and cut off there; the frames of the handshake have a payload
-- of at most 2012 bytes, which leaves room for 36 bytes of headers, if the device's salt has at most
-- 1024.
--
-- Not modelled: interaction/ but for its interface, and discovery/, whose methods do nothing yet; the
-- sockets of transport/ and what samples/ print. A `SessionManager`'s handler is never called. The
-- messenger of a side is that of the samples, and a frame that a handler sends is its result. The
-- handlers of the controller's program run on another goroutine than its call of `StartPASE`; in the
-- model they run one after the other.
pub mod Base
pub mod Message
pub mod Crypto
pub mod Session
pub mod Tlv
pub mod Transport
pub mod Samples
pub mod Model
pub mod Commissioning
pub mod Examples
