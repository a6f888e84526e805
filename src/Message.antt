-- ===== src/Message.antt =====
-- message/: the unencrypted framing of Matter messages. `Flags` and `Opcodes` hold the constants
-- of flags.go and opcodes.go, `Header` and `PayloadHeader` the two headers, `Frame` a whole
-- message and `Builder` the fluent constructor.
pub mod Flags
pub mod Wire
pub mod Header
pub mod PayloadHeader
pub mod Frame
pub mod Builder
