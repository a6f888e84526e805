-- ===== src/Commissioning/Opcodes.antt =====
-- message/opcodes.go: the protocol and the opcodes that PASE uses.
use go_matter.Base.{ℕ}

abbrev pub protocol_secure_channel : ℕ
protocol_secure_channel = 0x0000

abbrev pub opcode_pbkdf_param_request : ℕ
opcode_pbkdf_param_request = 0x20

abbrev pub opcode_pbkdf_param_response : ℕ
opcode_pbkdf_param_response = 0x21

abbrev pub opcode_pase_pake1 : ℕ
opcode_pase_pake1 = 0x22

abbrev pub opcode_pase_pake2 : ℕ
opcode_pase_pake2 = 0x23

abbrev pub opcode_pase_pake3 : ℕ
opcode_pase_pake3 = 0x24
