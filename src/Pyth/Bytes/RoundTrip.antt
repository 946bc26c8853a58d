-- ===== src/Pyth/Bytes/RoundTrip.antt =====
-- The encodings of integers are inverse to one another, within the range of the type.
use native.Mathlib.Nat.{pow-suc}
use solarium.Base.{
  ℕ, zero, suc, ◌+◌, ◌*◌, ◌/◌, ◌%◌, ◌^◌, ◌<◌, ◌≡◌, refl, ap, List, [], ◌∷◌, length, All, arith,
  Bool-cases, inl, inr, ltb,
}
use solarium.Base.Int.{ℤ, pos, negsuc}
use solarium.Pyth.Bytes.{
  IsByte, IsUnsigned, IsSigned, to_le_bytes, from_le_bytes, to_bits, from_bits, signed_to_le_bytes,
  signed_from_le_bytes,
}

pub length-to_le_bytes : (w n : ℕ) → length (to_le_bytes w n) ≡ w
unfolding to_le_bytes
length-to_le_bytes zero n = refl
length-to_le_bytes (suc w) n = ap suc (length-to_le_bytes w (n / 256))

pub to_le_bytes-IsByte : (w n : ℕ) → All IsByte (to_le_bytes w n)
unfolding to_le_bytes
to_le_bytes-IsByte zero n = tt
to_le_bytes-IsByte (suc w) n = (omega arith, to_le_bytes-IsByte w (n / 256))

pub from_le_bytes-to_le_bytes : (w n : ℕ) → IsUnsigned w n → from_le_bytes (to_le_bytes w n) ≡ n
unfolding to_le_bytes from_le_bytes
from_le_bytes-to_le_bytes zero n h = omega arith
from_le_bytes-to_le_bytes (suc w) n h =
    let h' : n < 256 * 256 ^ w = omega (arith, pow-suc 256 w) in
    omega (arith, from_le_bytes-to_le_bytes w (n / 256) (omega arith))

pub from_le_bytes-IsUnsigned :
    (w : ℕ) (bs : List ℕ) → All IsByte bs → length bs ≡ w → IsUnsigned w (from_le_bytes bs)
unfolding from_le_bytes
from_le_bytes-IsUnsigned zero [] h e = omega arith
from_le_bytes-IsUnsigned zero (b ∷ bs) h e = absurd (omega arith)
from_le_bytes-IsUnsigned (suc w) [] h e = absurd (omega arith)
from_le_bytes-IsUnsigned (suc w) (b ∷ bs) (hb, h) e =
    omega (arith, pow-suc 256 w, from_le_bytes-IsUnsigned w bs h (omega arith))

pub to_le_bytes-from_le_bytes :
    (w : ℕ) (bs : List ℕ) → All IsByte bs → length bs ≡ w → to_le_bytes w (from_le_bytes bs) ≡ bs
unfolding to_le_bytes from_le_bytes
to_le_bytes-from_le_bytes zero [] h e = refl
to_le_bytes-from_le_bytes zero (b ∷ bs) h e = absurd (omega arith)
to_le_bytes-from_le_bytes (suc w) [] h e = absurd (omega arith)
to_le_bytes-from_le_bytes (suc w) (b ∷ bs) (hb, h) e =
    let r = from_le_bytes bs in
    let low : (b + 256 * r) % 256 ≡ b = omega arith in
    let high : (b + 256 * r) / 256 ≡ r = omega arith in
    rw (low, high, to_le_bytes-from_le_bytes w bs h (omega arith))

pub from_bits-to_bits : (w : ℕ) (z : ℤ) → IsSigned w z → from_bits w (to_bits w z) ≡ z
unfolding from_bits to_bits
from_bits-to_bits w (pos n) h = ground arith
from_bits-to_bits w (negsuc n) h = ground arith

pub to_bits-IsUnsigned : (w : ℕ) (z : ℤ) → IsSigned w z → IsUnsigned w (to_bits w z)
unfolding to_bits
to_bits-IsUnsigned w (pos n) h = omega arith
to_bits-IsUnsigned w (negsuc n) h = omega arith

pub to_bits-from_bits : (w n : ℕ) → IsUnsigned w n → to_bits w (from_bits w n) ≡ n
unfolding from_bits to_bits
to_bits-from_bits w n h = elim (Bool-cases (ltb (2 * n) (256 ^ w))) [
  | inl small ↦ rw small
  | inr large ↦ rw large (omega arith)
]

pub length-signed_to_le_bytes : (w : ℕ) (z : ℤ) → length (signed_to_le_bytes w z) ≡ w
unfolding signed_to_le_bytes
length-signed_to_le_bytes w z = length-to_le_bytes w _

-- A signed integer of `w` bytes is read back from its bytes.
pub signed_from_le_bytes-signed_to_le_bytes :
    (w : ℕ) (z : ℤ) → IsSigned w z → signed_from_le_bytes w (signed_to_le_bytes w z) ≡ z
unfolding signed_to_le_bytes signed_from_le_bytes
signed_from_le_bytes-signed_to_le_bytes w z h =
    rw (from_le_bytes-to_le_bytes w (to_bits w z) (to_bits-IsUnsigned w z h))
      (from_bits-to_bits w z h)

-- And any `w` bytes are those of the integer that they stand for.
pub signed_to_le_bytes-signed_from_le_bytes :
    (w : ℕ) (bs : List ℕ)
    → All IsByte bs
    → length bs ≡ w
    → signed_to_le_bytes w (signed_from_le_bytes w bs) ≡ bs
unfolding signed_to_le_bytes signed_from_le_bytes
signed_to_le_bytes-signed_from_le_bytes w bs h e =
    rw (to_bits-from_bits w (from_le_bytes bs) (from_le_bytes-IsUnsigned w bs h e))
      (to_le_bytes-from_le_bytes w bs h e)

from_bits-IsSigned : (w n : ℕ) → IsUnsigned w n → IsSigned w (from_bits w n)
unfolding from_bits
from_bits-IsSigned w n h = elim (Bool-cases (ltb (2 * n) (256 ^ w))) [
  | inl small ↦ rw small (ground arith)
  | inr large ↦ rw large (ground arith)
]

pub signed_from_le_bytes-IsSigned :
    (w : ℕ) (bs : List ℕ) → All IsByte bs → length bs ≡ w → IsSigned w (signed_from_le_bytes w bs)
unfolding signed_from_le_bytes
signed_from_le_bytes-IsSigned w bs h e =
    from_bits-IsSigned w (from_le_bytes bs) (from_le_bytes-IsUnsigned w bs h e)

pub signed_to_le_bytes-IsByte : (w : ℕ) (z : ℤ) → All IsByte (signed_to_le_bytes w z)
unfolding signed_to_le_bytes
signed_to_le_bytes-IsByte w z = to_le_bytes-IsByte w (to_bits w z)
