-- ===== src/Driver/Serum/Vault.antt =====
-- src/serum.rs: the search for the address that owns the vaults of a market.
pub mod Total
use solarium.Base.{
  ℕ, zero, suc, ◌+◌, ◌^◌, ◌≤◌, ◌<◌, ◌≡◌, [], ◌∷◌, Option, some, none, Outcome, ok, spin, ◌>>=◌,
  lt→ltb, ap, ◌∙◌, arith,
}
use solarium.Pyth.Bytes.{to_le_bytes}
use solarium.Driver.Host.{Host}
use solarium.Driver.Serum.{SerumDex}
use solarium.Driver.Serum.Sizes.{fit, plus}

module _ (h : Host) (d : SerumDex h) (serum market : h.Pubkey) where
  abbrev pub address : ℕ → Option h.Pubkey
  address nonce = d.create_program_address (d.as_ref market ∷ to_le_bytes 8 nonce ∷ []) serum

module _ {ℓ} {E : Type ℓ} (h : Host) (d : SerumDex h) (serum market : h.Pubkey) where
  found : Option h.Pubkey → ℕ → Outcome E (h.Pubkey × ℕ) → Outcome E (h.Pubkey × ℕ)
  found (some key) nonce rest = ok (key, nonce)
  found none nonce rest = rest

  -- The loop from `nonce` on, with the rounds left.
  try_nonces : ℕ → ℕ → Outcome E (h.Pubkey × ℕ)
  unfolding found
  try_nonces zero nonce = spin
  try_nonces (suc rounds) nonce =
      let rest = (plus nonce 1 >>= λ nonce. try_nonces rounds nonce) in
      found (address h d serum market nonce) nonce rest

  unfoldable pub create_vault_address : ℕ → Outcome E (h.Pubkey × ℕ)
  unfolding try_nonces
  create_vault_address rounds = try_nonces rounds 0

  try_nonces-hit :
      (rounds nonce : ℕ) (key : h.Pubkey)
      → address h d serum market nonce ≡ some key
      → try_nonces (suc rounds) nonce ≡ ok (key, nonce)
  unfolding try_nonces found
  try_nonces-hit rounds nonce key e = rw e

  try_nonces-miss :
      (rounds nonce : ℕ)
      → address h d serum market nonce ≡ none
      → nonce + 1 < 2 ^ 64
      → try_nonces (suc rounds) nonce ≡ try_nonces rounds (nonce + 1)
  unfolding try_nonces found fit
  try_nonces-miss rounds nonce e small = rw (e, lt→ltb (nonce + 1) (2 ^ 64) small)

  try_nonces_lem :
      (n rounds nonce last : ℕ) (key : h.Pubkey)
      → n < rounds
      → nonce + n ≡ last
      → last < 2 ^ 64
      → address h d serum market last ≡ some key
      → ((i : ℕ) → nonce ≤ i → i < last → address h d serum market i ≡ none)
      → try_nonces rounds nonce ≡ ok (key, last)
  try_nonces_lem zero (suc rounds) nonce last key less sum small hit miss =
      ap (try_nonces (suc rounds)) same ∙ try_nonces-hit rounds last key hit
    where
      same : nonce ≡ last
      same = omega arith
  try_nonces_lem (suc n) (suc rounds) nonce last key less sum small hit miss =
      try_nonces-miss rounds nonce (miss nonce (omega arith) (omega arith)) (omega arith)
      ∙ try_nonces_lem n rounds (nonce + 1) last key (omega arith) (omega arith) small hit
          (λ i low high. miss i (omega arith) high)
  try_nonces_lem n zero nonce last key less sum small hit miss = absurd (omega arith)

  -- `create_vault_address` returns the address of the least nonce that has one, with that nonce, if
  -- that nonce fits a u64; any number of rounds above the nonce is enough.
  pub create_vault_address_lem :
      (nonce rounds : ℕ) (key : h.Pubkey)
      → nonce < rounds
      → nonce < 2 ^ 64
      → address h d serum market nonce ≡ some key
      → ((i : ℕ) → i < nonce → address h d serum market i ≡ none)
      → create_vault_address rounds ≡ ok (key, nonce)
  unfolding create_vault_address
  create_vault_address_lem nonce rounds key less small hit miss =
      try_nonces_lem nonce rounds 0 nonce key less (omega arith) small hit
        (λ i low high. miss i high)
