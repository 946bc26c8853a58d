-- ===== src/Driver/Serum/Vault/Total.antt =====
-- src/serum.rs: how the search for the vaults' address can end.
use solarium.Base.{
  ℕ, zero, suc, ◌+◌, ◌^◌, ◌≤◌, ◌<◌, ◌≡◌, sym, ap, ◌∙◌, subst, inl, inr, some, none, Option-cases,
  Outcome, ok, panic, le→ltb_false, le-cases, arith,
}
use solarium.Driver.Host.{Host}
use solarium.Driver.Serum.{SerumDex}
use solarium.Driver.Serum.Sizes.{fit}
use solarium.Driver.Serum.Vault.{
  address, found, try_nonces, create_vault_address, try_nonces-hit, try_nonces-miss,
}

module _ (h : Host) (d : SerumDex h) (serum market : h.Pubkey) where
  abbrev pub NoneBelow : ℕ → Type 0
  NoneBelow nonce = (i : ℕ) → i < nonce → address h d serum market i ≡ none

  none_next :
      (nonce : ℕ) → NoneBelow nonce → address h d serum market nonce ≡ none → NoneBelow (nonce + 1)
  none_next nonce below here i less = elim (le-cases nonce i) [
    | inl at_least ↦ ap (address h d serum market) (same at_least) ∙ here
    | inr smaller ↦ below i smaller
  ]
    where
      same : nonce ≤ i → i ≡ nonce
      same at_least = omega arith

module _ {ℓ} {E : Type ℓ} (h : Host) (d : SerumDex h) (serum market : h.Pubkey) where
  -- The address of the least nonce that has one, or a panic (an overflow) where no nonce has one.
  pub data Searched : Outcome E (h.Pubkey × ℕ) → Type ℓ where
    least :
        (key : h.Pubkey) (nonce : ℕ)
        → nonce < 2 ^ 64
        → address h d serum market nonce ≡ some key
        → NoneBelow h d serum market nonce
        → Searched (ok (key, nonce))
    exhausted : NoneBelow h d serum market (2 ^ 64) → Searched panic

  try_nonces-overflow :
      (rounds nonce : ℕ)
      → address h d serum market nonce ≡ none
      → 2 ^ 64 ≤ nonce + 1
      → try_nonces {E = E} h d serum market (suc rounds) nonce ≡ panic
  unfolding try_nonces found fit
  try_nonces-overflow rounds nonce e large = rw (e, le→ltb_false (nonce + 1) (2 ^ 64) large)

  try_nonces-Searched :
      (rounds nonce : ℕ)
      → nonce < 2 ^ 64
      → 2 ^ 64 ≤ nonce + rounds
      → NoneBelow h d serum market nonce
      → Searched (try_nonces h d serum market rounds nonce)
  try_nonces-Searched zero nonce small enough below = absurd (omega arith)
  try_nonces-Searched (suc rounds) nonce small enough below =
      elim (Option-cases (address h d serum market nonce)) [
        | inl miss ↦ elim (le-cases (2 ^ 64) (nonce + 1)) [
          | inl large ↦
              subst Searched (sym (try_nonces-overflow rounds nonce miss large))
                (exhausted (λ i less. none_next h d serum market nonce below miss i (omega arith)))
          | inr more ↦
              subst Searched (sym (try_nonces-miss h d serum market rounds nonce miss more)) (
                try_nonces-Searched rounds (nonce + 1) more (omega arith)
                  (none_next h d serum market nonce below miss))
        ]
        | inr hit ↦
            subst Searched (sym (try_nonces-hit h d serum market rounds nonce hit.0 hit.1))
              (least hit.0 nonce small hit.1 below)
      ]

  -- With 2 ^ 64 rounds or more, `create_vault_address` never uses up its rounds: it returns the
  -- address of the least nonce of 64 bits that has one, with that nonce, or panics where none has one.
  pub create_vault_address-Searched :
      (rounds : ℕ) → 2 ^ 64 ≤ rounds → Searched (create_vault_address h d serum market rounds)
  unfolding create_vault_address
  create_vault_address-Searched rounds enough =
      try_nonces-Searched rounds 0 (omega arith) (omega arith) (λ i less. absurd (omega arith))
