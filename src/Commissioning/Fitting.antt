-- ===== src/Commissioning/Fitting.antt =====
-- The messages of the handshake are values that the encoding carries.
use go_matter.Base.{
  ℕ, ◌^◌, ◌<◌, ◌≡◌, refl, arith, Bool, true, false, [], ◌∷◌, length, Option, none, some,
}
use go_matter.Base.Bytes.{Bytes, equal}
use go_matter.Tlv.StructTags.{split, has_option}
use go_matter.Tlv.Encoder.{field_id, is_empty_value, is_skipped}
use go_matter.Tlv.Decoder.{GoType, El, view, is_ignored, wanted_id}
use go_matter.Tlv.RoundTrip.Fits.{Fits, IsFieldTag}
use go_matter.Commissioning.Messages.{
  plain, omitted, pbkdf_param_request, pbkdf_param_set, pbkdf_param_response, pake1, pake2, pake3,
}

tag_1 : IsFieldTag (plain b'1') true 1
unfolding field_id wanted_id is_ignored equal
tag_1 = ground arith

tag_2 : IsFieldTag (plain b'2') true 2
unfolding field_id wanted_id is_ignored equal
tag_2 = ground arith

tag_3 : IsFieldTag (plain b'3') true 3
unfolding field_id wanted_id is_ignored equal
tag_3 = ground arith

tag_4 : IsFieldTag (plain b'4') true 4
unfolding field_id wanted_id is_ignored equal
tag_4 = ground arith

omitted_4 : IsFieldTag (omitted b'4') true 4
unfolding field_id wanted_id is_ignored equal
omitted_4 = ground arith

omitted_5 : IsFieldTag (omitted b'5') true 5
unfolding field_id wanted_id is_ignored equal
omitted_5 = ground arith

pub pbkdf_param_request-Fits :
    (random : Bytes) (session_id passcode_id : ℕ) (has_params : Bool) (node_id : ℕ)
    → length random < 2 ^ 31
    → session_id < 2 ^ 16
    → passcode_id < 2 ^ 16
    → node_id < 2 ^ 64
    → Fits pbkdf_param_request (random, (session_id, (passcode_id, (has_params, (node_id, tt)))))
pbkdf_param_request-Fits random session_id passcode_id has_params node_id h i j k = (
  1 ∷ 2 ∷ 3 ∷ 4 ∷ 5 ∷ [],
  (
    tag_1,
    (omega arith, (omega arith, (omega arith, (omega arith, tt)))),
    λ keep. h,
    (
      tag_2,
      (omega arith, (omega arith, (omega arith, tt))),
      λ keep. (i, omega arith),
      (
        tag_3,
        (omega arith, (omega arith, tt)),
        λ keep. (j, omega arith),
        (tag_4, (omega arith, tt), λ keep. tt, (omitted_5, tt, λ keep. (k, k), refl)),
      ),
    ),
  ),
)

-- The parameters, if there are any, are short enough.
abbrev pub FitsParams : Option (El pbkdf_param_set) → Type 0
FitsParams none = Unit {0}
FitsParams (some (iterations, (salt, _))) = (iterations < 2 ^ 32) × (length salt < 2 ^ 31)

params-Fits :
    (params : Option (El pbkdf_param_set))
    → FitsParams params
    → is_skipped (omitted b'4') (view (GoType.pointer pbkdf_param_set) params) ≡ false
    → Fits (GoType.pointer pbkdf_param_set) params
unfolding is_skipped equal split has_option view is_empty_value
params-Fits none h keep = ground arith
params-Fits (some (iterations, (salt, _))) (i, s) keep =
    (1 ∷ 2 ∷ [], (tag_1, (omega arith, tt), λ k. (i, omega arith), (tag_2, tt, λ k. s, refl)))

pub pbkdf_param_response-Fits :
    (echo random : Bytes) (session_id : ℕ) (params : Option (El pbkdf_param_set))
    → length echo < 2 ^ 31
    → length random < 2 ^ 31
    → session_id < 2 ^ 16
    → FitsParams params
    → Fits pbkdf_param_response (echo, (random, (session_id, (params, tt))))
pbkdf_param_response-Fits echo random session_id params h i j k = (
  1 ∷ 2 ∷ 3 ∷ 4 ∷ [],
  (
    tag_1,
    (omega arith, (omega arith, (omega arith, tt))),
    λ keep. h,
    (
      tag_2,
      (omega arith, (omega arith, tt)),
      λ keep. i,
      (
        tag_3,
        (omega arith, tt),
        λ keep. (j, omega arith),
        (omitted_4, tt, params-Fits params k, refl),
      ),
    ),
  ),
)

pub pake1-Fits : (pa : Bytes) → length pa < 2 ^ 31 → Fits pake1 (pa, tt)
pake1-Fits pa h = (1 ∷ [], (tag_1, tt, λ keep. h, refl))

pub pake2-Fits :
    (pb cb : Bytes) → length pb < 2 ^ 31 → length cb < 2 ^ 31 → Fits pake2 (pb, (cb, tt))
pake2-Fits pb cb h k =
    (1 ∷ 2 ∷ [], (tag_1, (omega arith, tt), λ keep. h, (tag_2, tt, λ keep. k, refl)))

pub pake3-Fits : (ca : Bytes) → length ca < 2 ^ 31 → Fits pake3 (ca, tt)
pake3-Fits ca h = (1 ∷ [], (tag_1, tt, λ keep. h, refl))
