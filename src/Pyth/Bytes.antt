-- ===== src/Pyth/Bytes.antt =====
-- The integers of the account layout as bytes: Rust's `to_le_bytes` and `from_le_bytes` of `u32`,
-- `u64`, `i32` and `i64`, which pyth/src/state.rs and pyth/src/instruction.rs call, and its indexing.
-- The width `w` counts bytes, so that the values of the type are those below 256 ^ w.
pub mod RoundTrip
pub mod Pieces
pub mod Slices
use solarium.Base.{
  ℕ, zero, suc, ◌+◌, ◌-◌, ◌*◌, ◌/◌, ◌%◌, ◌^◌, ◌≤◌, ◌<◌, List, [], ◌∷◌, ◌++◌, length, take, drop,
  ltb, leb, ◌&&◌, if◌then◌else◌, Outcome, ok, panic, ◌>>=◌, get_elem?, unwrap, set, replicate,
}
use solarium.Base.Int.{ℤ, pos, negsuc}

abbrev pub IsByte : ℕ → Type 0
IsByte b = b < 256

abbrev pub IsUnsigned : ℕ → ℕ → Type 0
IsUnsigned w n = n < 256 ^ w

abbrev pub IsSigned : ℕ → ℤ → Type 0
IsSigned w (pos n) = 2 * n < 256 ^ w
IsSigned w (negsuc n) = 2 * suc n ≤ 256 ^ w

unfoldable pub to_le_bytes : ℕ → ℕ → List ℕ
to_le_bytes zero n = []
to_le_bytes (suc w) n = n % 256 ∷ to_le_bytes w (n / 256)

unfoldable pub from_le_bytes : List ℕ → ℕ
from_le_bytes [] = 0
from_le_bytes (b ∷ bs) = b + 256 * from_le_bytes bs

-- Two's complement.
unfoldable pub to_bits : ℕ → ℤ → ℕ
to_bits w (pos n) = n
to_bits w (negsuc n) = 256 ^ w - suc n

unfoldable pub from_bits : ℕ → ℕ → ℤ
from_bits w n = if ltb (2 * n) (256 ^ w) then pos n else negsuc (256 ^ w - suc n)

unfoldable pub signed_to_le_bytes : ℕ → ℤ → List ℕ
unfolding to_le_bytes to_bits
signed_to_le_bytes w z = to_le_bytes w (to_bits w z)

unfoldable pub signed_from_le_bytes : ℕ → List ℕ → ℤ
unfolding from_le_bytes from_bits
signed_from_le_bytes w bs = from_bits w (from_le_bytes bs)

-- `&src[start..end]`
unfoldable pub slice {ℓ} : {E : Type ℓ} → List ℕ → ℕ → ℕ → Outcome E (List ℕ)
slice src start end =
    if leb start end && leb end (length src)
    then ok (take (end - start) (drop start src))
    else panic

-- A call on `&mut dst[start..end]`: what it leaves there goes back in place.
unfoldable pub with_slice {ℓ} :
    {E : Type ℓ} → List ℕ → ℕ → ℕ → (List ℕ → Outcome E (List ℕ)) → Outcome E (List ℕ)
unfolding slice
with_slice dst start end f = do
  old ← slice dst start end
  new ← f old
  ok (take start dst ++ (new ++ drop end dst))

-- `src[i]`
unfoldable pub index {ℓ} : {E : Type ℓ} → List ℕ → ℕ → Outcome E ℕ
index src i = unwrap (get_elem? src i)

-- `dst[i] = b`
unfoldable pub set_index {ℓ} : {E : Type ℓ} → List ℕ → ℕ → ℕ → Outcome E (List ℕ)
set_index dst i b = if ltb i (length dst) then ok (set dst i b) else panic

-- `n` bytes that are 0.
unfoldable pub zeros : ℕ → List ℕ
zeros n = replicate n 0
