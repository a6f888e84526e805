-- ===== src/Message/Header/Layout.antt =====
-- The wire form of a header as one concatenation, in the order of the comment in header.go.
use go_matter.Base.{ℕ, ◌%◌, ◌^◌, ◌≡◌, arith, Bool, [], ◌∷◌, ◌++◌, ◌==◌, if◌then◌else◌, ok}
use go_matter.Base.Bytes.{Bytes, put_le}
use go_matter.Message.Flags.{source_present, dsiz}
use go_matter.Message.Header.{Header, marshal, IsDest}

-- The destination field.
abbrev pub dest_bytes : ℕ → ℕ → Bytes
dest_bytes d dest =
    if d == 1 then put_le 8 dest else if d == 2 then put_le 2 (dest % 2 ^ 16) else []

abbrev pub source_bytes : Bool → ℕ → Bytes
source_bytes present source = if present then put_le 8 source else []

abbrev pub header_bytes : Header → Bytes
header_bytes h =
    h.flags
    ∷ (put_le 2 h.session_id
        ++ (h.security_flags
            ∷ (put_le 4 h.message_counter
                ++ (source_bytes (source_present h.flags) h.source_node_id
                    ++ dest_bytes (dsiz h.flags) h.dest_node_id))))

-- `Marshal` writes that, if the destination field is well formed.
pub marshal_layout :
    (h : Header) → IsDest (dsiz h.flags) h.dest_node_id → marshal h ≡ ok (header_bytes h)
unfolding marshal put_le
marshal_layout h d = ground arith
