-- ===== src/Examples/Tlv.antt =====
-- tlv/: elements written and read back.
use go_matter.Base.{ℕ, ◌≡◌, ◌≢◌, refl, arith, [], ◌∷◌, ◌++◌, ok, err}
use go_matter.Base.Bytes.{Bytes, get_le}
use go_matter.Tlv.Types.{Tag, element, nil, cons, context_tag, out_of_fuel, unexpected_eof}
use go_matter.Tlv.Reader.{
  read_full, read_tag, read_value, read_element, read_children, read_container_children,
}
use go_matter.Tlv.Reader.Fuel.{read_container_children-terminates}
use go_matter.Tlv.Writer.{write_tag}
use go_matter.Tlv.Writer.Qualified.{swapped, read_tag-write_tag-swapped, read_tag-write_tag_overrun}

-- The children of a structure with a context tag 1 and the value 5, and its end.
abbrev children : Bytes
children = 0x24 ∷ 1 ∷ 5 ∷ 0x18 ∷ 0x99 ∷ []

children_run :
    read_container_children children
    ≡ ok (cons (element (context_tag 1) 4 (5 ∷ []) nil) nil, 0x99 ∷ [])
unfolding read_container_children read_children read_element read_full read_tag read_value get_le
children_run = refl

read_container_children-terminates_example :
    read_container_children (0x15 ∷ 0x15 ∷ []) ≢ err out_of_fuel
read_container_children-terminates_example = read_container_children-terminates (0x15 ∷ 0x15 ∷ [])

abbrev qualified : ℕ → Tag
qualified class = record { class = class; id = 9; profile = 0xFFF1_0002 }

read_tag-write_tag-swapped_example :
    (bs : Bytes) × (write_tag (qualified 0xE0) ≡ ok bs)
    × (read_tag 0xE0 (bs ++ (4 ∷ [])) ≡ ok (swapped (qualified 0xE0), 4 ∷ []))
read_tag-write_tag-swapped_example =
    read_tag-write_tag-swapped (qualified 0xE0) (4 ∷ []) refl (omega arith) (omega arith)

read_tag-write_tag_overrun_example :
    (bs : Bytes) × (found : Tag) × (write_tag (qualified 0xC0) ≡ ok bs)
    × (read_tag 0xC0 bs ≡ err unexpected_eof)
    × (read_tag 0xC0 (bs ++ (4 ∷ 5 ∷ 6 ∷ [])) ≡ ok (found, 6 ∷ []))
read_tag-write_tag_overrun_example = read_tag-write_tag_overrun (qualified 0xC0) 4 5 (6 ∷ []) refl
