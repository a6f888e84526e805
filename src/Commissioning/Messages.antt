-- ===== src/Commissioning/Messages.antt =====
-- commissioning/messages.go: the wire types, as Go types whose fields carry their `tlv` tags. A
-- value of one is the tuple of its fields.
use go_matter.Base.{ℕ, true, [], ◌∷◌}
use go_matter.Base.Bytes.{Bytes}
use go_matter.Tlv.StructTags.{omit_empty}
use go_matter.Tlv.Decoder.{GoType, end, field, struct, pointer, bytes, bool, uint}

-- The tags `tlv:"n"` and `tlv:"n,omitempty"` for a digit `n`.
abbrev pub plain : ℕ → Bytes
plain digit = digit ∷ []

abbrev pub omitted : ℕ → Bytes
omitted digit = digit ∷ b',' ∷ omit_empty

-- `PBKDFParamRequest`: InitiatorRandom, InitiatorSessionID, PasscodeID, HasPBKDFParameters,
-- InitiatorNodeID.
abbrev pub pbkdf_param_request : GoType
pbkdf_param_request = struct (
    field (plain b'1') true bytes (
      field (plain b'2') true (uint 16) (
        field (plain b'3') true (uint 16)
          (field (plain b'4') true bool (field (omitted b'5') true (uint 64) end)))))

-- `PBKDFParamSet`: Iterations, Salt.
abbrev pub pbkdf_param_set : GoType
pbkdf_param_set = struct (field (plain b'1') true (uint 32) (field (plain b'2') true bytes end))

-- `PBKDFParamResponse`: InitiatorRandom, ResponderRandom, ResponderSessionID, Params.
abbrev pub pbkdf_param_response : GoType
pbkdf_param_response = struct (
    field (plain b'1') true bytes (
      field (plain b'2') true bytes (
        field (plain b'3') true (uint 16)
          (field (omitted b'4') true (pointer pbkdf_param_set) end))))

-- `Pake1`: PA.
abbrev pub pake1 : GoType
pake1 = struct (field (plain b'1') true bytes end)

-- `Pake2`: PB, CB.
abbrev pub pake2 : GoType
pake2 = struct (field (plain b'1') true bytes (field (plain b'2') true bytes end))

-- `Pake3`: CA.
abbrev pub pake3 : GoType
pake3 = struct (field (plain b'1') true bytes end)
