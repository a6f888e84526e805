-- ===== src/Message/Builder/Flags.antt =====
-- What the builder's bit operations do to a flag byte: the field that is meant changes, and the
-- others stay. Each fact is checked on all 256 bytes.
use go_matter.Base.{ℕ, ◌%◌, ◌<◌, ◌≡◌, refl, bit_and, bit_or}
use go_matter.Base.Bits.Table.{agree_below, on_bytes}

pub set_source-byte : (x : ℕ) → x < 256 → (bit_or x 0x04) % 256 ≡ bit_or x 0x04
unfolding agree_below
set_source-byte = on_bytes _ _ refl

pub set_source-version : (x : ℕ) → x < 256 → bit_and (bit_or x 0x04) 0xF0 ≡ bit_and x 0xF0
unfolding agree_below
set_source-version = on_bytes _ _ refl

pub set_source-dsiz : (x : ℕ) → x < 256 → bit_and (bit_or x 0x04) 0x03 ≡ bit_and x 0x03
unfolding agree_below
set_source-dsiz = on_bytes _ _ refl

pub set_source-present : (x : ℕ) → x < 256 → bit_and (bit_or x 0x04) 0x04 ≡ 4
unfolding agree_below
set_source-present = on_bytes _ _ refl

pub set_unicast-byte :
    (x : ℕ) → x < 256 → (bit_or (bit_and x 0xFC) 0x01) % 256 ≡ bit_or (bit_and x 0xFC) 0x01
unfolding agree_below
set_unicast-byte = on_bytes _ _ refl

pub set_unicast-version :
    (x : ℕ) → x < 256 → bit_and (bit_or (bit_and x 0xFC) 0x01) 0xF0 ≡ bit_and x 0xF0
unfolding agree_below
set_unicast-version = on_bytes _ _ refl

pub set_unicast-dsiz : (x : ℕ) → x < 256 → bit_and (bit_or (bit_and x 0xFC) 0x01) 0x03 ≡ 1
unfolding agree_below
set_unicast-dsiz = on_bytes _ _ refl

pub set_unicast-present :
    (x : ℕ) → x < 256 → bit_and (bit_or (bit_and x 0xFC) 0x01) 0x04 ≡ bit_and x 0x04
unfolding agree_below
set_unicast-present = on_bytes _ _ refl

pub set_group-byte :
    (x : ℕ) → x < 256 → (bit_or (bit_and x 0xFC) 0x02) % 256 ≡ bit_or (bit_and x 0xFC) 0x02
unfolding agree_below
set_group-byte = on_bytes _ _ refl

pub set_group-version :
    (x : ℕ) → x < 256 → bit_and (bit_or (bit_and x 0xFC) 0x02) 0xF0 ≡ bit_and x 0xF0
unfolding agree_below
set_group-version = on_bytes _ _ refl

pub set_group-dsiz : (x : ℕ) → x < 256 → bit_and (bit_or (bit_and x 0xFC) 0x02) 0x03 ≡ 2
unfolding agree_below
set_group-dsiz = on_bytes _ _ refl

pub set_group-present :
    (x : ℕ) → x < 256 → bit_and (bit_or (bit_and x 0xFC) 0x02) 0x04 ≡ bit_and x 0x04
unfolding agree_below
set_group-present = on_bytes _ _ refl

pub set_session_type-byte :
    (x : ℕ) → x < 256 → bit_or (bit_and x 0xFC) 0x00 % 256 ≡ bit_or (bit_and x 0xFC) 0x00
unfolding agree_below
set_session_type-byte = on_bytes _ _ refl

pub set_initiator-byte : (x : ℕ) → x < 256 → (bit_or x 0x01) % 256 ≡ bit_or x 0x01
unfolding agree_below
set_initiator-byte = on_bytes _ _ refl

pub set_initiator-vendor : (x : ℕ) → x < 256 → bit_and (bit_or x 0x01) 0x10 ≡ bit_and x 0x10
unfolding agree_below
set_initiator-vendor = on_bytes _ _ refl

pub set_initiator-acks : (x : ℕ) → x < 256 → bit_and (bit_or x 0x01) 0x02 ≡ bit_and x 0x02
unfolding agree_below
set_initiator-acks = on_bytes _ _ refl

pub set_reliability-byte : (x : ℕ) → x < 256 → (bit_or x 0x04) % 256 ≡ bit_or x 0x04
unfolding agree_below
set_reliability-byte = on_bytes _ _ refl

pub set_reliability-vendor : (x : ℕ) → x < 256 → bit_and (bit_or x 0x04) 0x10 ≡ bit_and x 0x10
unfolding agree_below
set_reliability-vendor = on_bytes _ _ refl

pub set_reliability-acks : (x : ℕ) → x < 256 → bit_and (bit_or x 0x04) 0x02 ≡ bit_and x 0x02
unfolding agree_below
set_reliability-acks = on_bytes _ _ refl

pub set_acknowledgement-byte : (x : ℕ) → x < 256 → (bit_or x 0x02) % 256 ≡ bit_or x 0x02
unfolding agree_below
set_acknowledgement-byte = on_bytes _ _ refl

pub set_acknowledgement-vendor : (x : ℕ) → x < 256 → bit_and (bit_or x 0x02) 0x10 ≡ bit_and x 0x10
unfolding agree_below
set_acknowledgement-vendor = on_bytes _ _ refl

pub set_acknowledgement-acks : (x : ℕ) → x < 256 → bit_and (bit_or x 0x02) 0x02 ≡ 0x02
unfolding agree_below
set_acknowledgement-acks = on_bytes _ _ refl

pub set_vendor-byte : (x : ℕ) → x < 256 → (bit_or x 0x10) % 256 ≡ bit_or x 0x10
unfolding agree_below
set_vendor-byte = on_bytes _ _ refl

pub set_vendor-vendor : (x : ℕ) → x < 256 → bit_and (bit_or x 0x10) 0x10 ≡ 0x10
unfolding agree_below
set_vendor-vendor = on_bytes _ _ refl

pub set_vendor-acks : (x : ℕ) → x < 256 → bit_and (bit_or x 0x10) 0x02 ≡ bit_and x 0x02
unfolding agree_below
set_vendor-acks = on_bytes _ _ refl
