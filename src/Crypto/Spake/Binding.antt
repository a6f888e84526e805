-- ===== src/Crypto/Spake/Binding.antt =====
-- What the transcript commits the two sides to.
use go_matter.Base.{
  ◌^◌, ◌<◌, ◌≡◌, sym, ap, arith, ◌∙◌, [], ◌∷◌, ◌++◌, length, take, drop, All, take-append_length,
  drop-append_length, Result,
}
use mathlib.Core.List.{append_assoc, append-nil}
use go_matter.Base.Bytes.{Bytes, put_le, get_le, length-put_le, get_le-put_le}
use go_matter.Crypto.Spake.Group.{Curve, Hashes, Error}
use go_matter.Crypto.Spake.Transcript.{Keys, serialize_bytes, build_tt, spake_finalize}

-- A byte slice whose length a uint64 holds.
abbrev pub IsShort : Bytes → Type 0
IsShort b = length b < 2 ^ 64

-- The first serialized slice of a transcript, and what follows it.
abbrev first_slice : Bytes → Bytes × Bytes
first_slice b = let n = get_le (take 8 b) in (take n (drop 8 b), drop n (drop 8 b))

first_slice-serialize_bytes :
    (p r : Bytes) → IsShort p → first_slice (serialize_bytes p ++ r) ≡ (p, r)
unfolding serialize_bytes
first_slice-serialize_bytes p r h =
    let head : take 8 (put_le 8 (length p) ++ (p ++ r)) ≡ put_le 8 (length p) =
      rw (length-put_le 8 (length p)) at (take-append_length (put_le 8 (length p)) (p ++ r)) in
    let tail : drop 8 (put_le 8 (length p) ++ (p ++ r)) ≡ p ++ r =
      rw (length-put_le 8 (length p)) at (drop-append_length (put_le 8 (length p)) (p ++ r)) in
    rw (
      append_assoc (put_le 8 (length p)) p r,
      head,
      tail,
      get_le-put_le 8 (length p) h,
      take-append_length p r,
      drop-append_length p r,
    )

serialize_bytes-injective :
    (p q r s : Bytes)
    → IsShort p
    → IsShort q
    → serialize_bytes p ++ r ≡ serialize_bytes q ++ s
    → (p ≡ q) × (r ≡ s)
serialize_bytes-injective p q r s hp hq e =
    let same : (p, r) ≡ (q, s) =
      sym (first_slice-serialize_bytes p r hp)
      ∙ ap first_slice e
      ∙ first_slice-serialize_bytes q s hq in
    (ap (λ (x : Bytes × Bytes). x.0) same, ap (λ (x : Bytes × Bytes). x.1) same)

append-cancel : (p r s : Bytes) → p ++ r ≡ p ++ s → r ≡ s
append-cancel p r s e =
    sym (drop-append_length p r) ∙ ap (drop (length p)) e ∙ drop-append_length p s

-- What one side derives its keys from.
pub record Inputs : Type 0 where
  pub context : Bytes
  pub pa : Bytes
  pub pb : Bytes
  pub z : Bytes
  pub v : Bytes
  pub w0 : Bytes

abbrev pub AreShort : Inputs → Type 0
AreShort i = All IsShort (i.pa ∷ i.pb ∷ i.z ∷ i.v ∷ i.w0 ∷ [])

inputs_eq :
    (i j : Inputs)
    → i.context ≡ j.context
    → i.pa ≡ j.pa
    → i.pb ≡ j.pb
    → i.z ≡ j.z
    → i.v ≡ j.v
    → i.w0 ≡ j.w0
    → i ≡ j
inputs_eq i j c a b z v w = cc

module _ (curve : Curve) (hashes : Hashes) where
  abbrev pub transcript : Inputs → Bytes
  transcript i = build_tt curve (hashes.sha256 i.context) i.pa i.pb i.z i.v i.w0

  abbrev pub derive : Inputs → Result Error Keys
  derive i = spake_finalize curve hashes i.context i.pa i.pb i.z i.v i.w0

  digest-IsShort : (b : Bytes) → IsShort (hashes.sha256 b)
  digest-IsShort b = rw (hashes.sha256_length b) (omega arith)

  -- Equal transcripts come from equal digests of the context, shares and secrets.
  pub build_tt-injective :
      (i j : Inputs)
      → AreShort i
      → AreShort j
      → transcript i ≡ transcript j
      → (hashes.sha256 i.context ≡ hashes.sha256 j.context → i.context ≡ j.context)
      → i ≡ j
  unfolding build_tt
  build_tt-injective i j (ia, (ib, (iz, (iv, (iw, _))))) (ja, (jb, (jz, (jv, (jw, _))))) e apart =
      let (c, e1) =
        serialize_bytes-injective _ _ _ _ (digest-IsShort i.context) (digest-IsShort j.context) e in
      let e2 = append-cancel (serialize_bytes []) _ _ e1 in
      let e3 = append-cancel (serialize_bytes []) _ _ e2 in
      let e4 = append-cancel (serialize_bytes (curve.marshal curve.spake_m)) _ _ e3 in
      let e5 = append-cancel (serialize_bytes (curve.marshal curve.spake_n)) _ _ e4 in
      let (a, e6) = serialize_bytes-injective i.pa j.pa _ _ ia ja e5 in
      let (b, e7) = serialize_bytes-injective i.pb j.pb _ _ ib jb e6 in
      let (z, e8) = serialize_bytes-injective i.z j.z _ _ iz jz e7 in
      let (v, e9) = serialize_bytes-injective i.v j.v _ _ iv jv e8 in
      let last : serialize_bytes i.w0 ++ [] ≡ serialize_bytes j.w0 ++ [] =
        append-nil (serialize_bytes i.w0) ∙ e9 ∙ sym (append-nil (serialize_bytes j.w0)) in
      let (w, _) = serialize_bytes-injective i.w0 j.w0 [] [] iw jw last in
      inputs_eq i j (apart c) a b z v w
