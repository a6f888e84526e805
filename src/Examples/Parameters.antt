-- ===== src/Examples/Parameters.antt =====
-- Small functions in place of the packages that the program imports.
use go_matter.Base.{
  ℕ, ◌+◌, ◌*◌, ◌/◌, ◌%◌, ◌≡◌, refl, arith, Bool, true, [], ◌∷◌, ◌++◌, ◌==◌, ◌&&◌, ltb,
  if◌then◌else◌, Option, none, some, replicate, length, length-replicate, lt→ltb, sym, ◌∙◌, ap,
}
use go_matter.Base.Bytes.{Bytes}
use native.Mathlib.Nat.{add-mul-mod_self_right, add-mul, mul_assoc, mul_comm}
use go_matter.Crypto.BigInt.{set_bytes}
use go_matter.Crypto.Provider.{Ccm, Hkdf}
use go_matter.Crypto.Pbkdf.{Pbkdf2}
use go_matter.Crypto.Spake.Group.{Curve, Hashes, Point, negate_y}

abbrev pub plain_ccm : Ccm
plain_ccm = record {
  seal = λ key nonce plaintext aad. if ltb (length plaintext) 0x10000 then some plaintext else none;
  unseal = λ key nonce ciphertext aad. some ciphertext;
  unseal-seal = λ key nonce plaintext aad hk hn h.
      (plaintext, rw (lt→ltb (length plaintext) 0x10000 h), refl);
}

abbrev pub zero_kdf : Hkdf
zero_kdf = record {
  expand = λ secret salt info n. some (replicate n 0);
  expand_length = λ secret salt info n h. (replicate n 0, refl, length-replicate n 0);
}

abbrev pub toy_hashes : Hashes
toy_hashes = record {
  sha256 = λ b. replicate 32 (length b % 256);
  hmac = λ key input. replicate 32 (set_bytes input % 256);
  kdf = zero_kdf;
  sha256_length = λ b. refl;
  hmac_length = λ key input. refl;
}

abbrev pub toy_mult : Point → Bytes → Point
toy_mult (x, y) k = (x, y * set_bytes k % 5)

abbrev pub toy_unmarshal : Bytes → Option Point
toy_unmarshal (x ∷ y ∷ rest) = some (x, y)
toy_unmarshal _ = none

abbrev pub toy_marshal : Point → Bytes
toy_marshal (x, y) = x ∷ y ∷ replicate 63 0

pub mod-mul : (a b : ℕ) → a % 5 * b % 5 ≡ a * b % 5
mod-mul a b =
    let whole : a * b ≡ a % 5 * b + a / 5 * b * 5 =
      ap (λ (t : ℕ). t * b) (omega arith)
      ∙ add-mul (a % 5) (5 * (a / 5)) b
      ∙ omega (arith, mul_assoc 5 (a / 5) b) in
    rw (whole, add-mul-mod_self_right)

abbrev pub toy_base : Bytes → Point
toy_base k = (0, set_bytes k % 5)

abbrev pub in_toy : Point → Bool
in_toy (x, y) = x == 0 && ltb y 5

pub toy_base-in_toy : (k : Bytes) → in_toy (toy_base k) ≡ true
toy_base-in_toy k = lt→ltb _ 5 (omega arith)

pub toy_mult-in_toy : (q : Point) (k : Bytes) → in_toy q ≡ true → in_toy (toy_mult q k) ≡ true
toy_mult-in_toy q k h = ground arith

pub toy_mult_comm : (j k : Bytes) → toy_mult (toy_base j) k ≡ toy_mult (toy_base k) j
toy_mult_comm j k =
    let m = set_bytes j in
    let n = set_bytes k in
    ap (λ (t : ℕ). (0, t))
      (mod-mul m n ∙ (ap (λ (t : ℕ). t % 5) (mul_comm m n) ∙ sym (mod-mul n m)))

abbrev pub toy_add : Point → Point → Point
toy_add (x, y) (x', y') = (x, (y + y') % 5)

pub toy_add-negate :
    (a b : Point) → in_toy a ≡ true → in_toy b ≡ true → toy_add (toy_add a b) (negate_y 5 b) ≡ a
toy_add-negate a b h h' = ground arith

-- The five points (0, y), added by their second coordinate.
abbrev pub toy_curve : Curve
toy_curve = record {
  field_size = 5;
  order = 5;
  add = toy_add;
  scalar_mult = toy_mult;
  scalar_base_mult = toy_base;
  is_on_curve = in_toy;
  marshal = toy_marshal;
  unmarshal = toy_unmarshal;
  spake_m = (0, 2);
  spake_n = (0, 3);
  in_group = in_toy;
  base_in_group = toy_base-in_toy;
  mult_in_group = toy_mult-in_toy;
  m_in_group = refl;
  n_in_group = refl;
  add-negate = toy_add-negate;
  mult_comm = toy_mult_comm;
  unmarshal-marshal = λ (x, y) h. refl;
  marshal_length = λ (x, y). refl;
}

-- 80 bytes whose halves are the numbers 2 and 3.
abbrev pub toy_pbkdf : Pbkdf2
toy_pbkdf password salt rounds = replicate 39 0 ++ (2 ∷ (replicate 39 0 ++ (3 ∷ [])))
