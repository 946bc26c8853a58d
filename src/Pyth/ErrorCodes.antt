-- ===== src/Pyth/ErrorCodes.antt =====
-- pyth/src/error.rs: error codes that tell the line and the file of a failed check. An overflow of the
-- u32 is a panic (the dev profile).
use solarium.Base.{
  ℕ, ◌+◌, ◌*◌, ◌/◌, ◌%◌, ◌^◌, ◌<◌, ◌≡◌, refl, Bool, true, false, ltb, lt→ltb, if◌then◌else◌,
  Outcome, ok, err, panic, ◌>>=◌, arith,
}
use solarium.Solana.{SolanaProgram}

-- `line + ((file_id as u32) << 24)`, for a line that is a u32 and a file that is a u8
unfoldable pub err_at {ℓ} : {E : Type ℓ} → ℕ → ℕ → Outcome E ℕ
err_at line file_id =
    let code = line + file_id * 2 ^ 24 in if ltb code (2 ^ 32) then ok code else panic

-- `assert_or_err!`, in line `line`
unfoldable pub assert_or_err :
    (s : SolanaProgram) → Bool → ℕ → ℕ → Outcome s.ProgramError (Unit {0})
assert_or_err s true line file_id = ok tt
assert_or_err s false line file_id = do code ← err_at line file_id; err (s.custom code)

-- For a line below 2 ^ 24 and a file below 256 there is a code, and the line and the file can be read
-- back from its low 24 bits and from the rest.
pub err_at_lem {ℓ} :
    {E : Type ℓ} (line file_id : ℕ)
    → line < 2 ^ 24
    → file_id < 2 ^ 8
    → (code : ℕ) × (err_at {E = E} line file_id ≡ ok code)
      × (code % 2 ^ 24 ≡ line)
      × (code / 2 ^ 24 ≡ file_id)
unfolding err_at
err_at_lem line file_id small byte = (
  line + file_id * 2 ^ 24,
  rw (lt→ltb (line + file_id * 2 ^ 24) (2 ^ 32) (omega arith)),
  omega arith,
  omega arith,
)

-- `assert_or_err!` passes where the value is true. Where it is false, in a line below 2 ^ 24 of a file
-- below 256, it fails with a custom code whose low 24 bits are the line, and whose rest is the file.
pub assert_or_err_lem :
    (s : SolanaProgram) (line file_id : ℕ)
    → line < 2 ^ 24
    → file_id < 2 ^ 8
    → (assert_or_err s true line file_id ≡ ok tt)
      × ((code : ℕ) × (assert_or_err s false line file_id ≡ err (s.custom code))
          × (code % 2 ^ 24 ≡ line)
          × (code / 2 ^ 24 ≡ file_id))
unfolding assert_or_err
assert_or_err_lem s line file_id small byte =
    let (code, e, low, high) = err_at_lem {E = s.ProgramError} line file_id small byte in
    (refl, (code, rw e, low, high))
