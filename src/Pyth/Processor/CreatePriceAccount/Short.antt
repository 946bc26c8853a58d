-- ===== src/Pyth/Processor/CreatePriceAccount/Short.antt =====
-- On a buffer of fewer than 3312 bytes the loops of pyth/src/processor/create_price_account.rs panic.
use solarium.Base.{
  ℕ, zero, suc, ◌+◌, ◌-◌, ◌<◌, ◌≡◌, refl, ap, ◌∙◌, List, [], ◌∷◌, length, set, get_elem?, Outcome,
  ok, panic, ◌>>=◌, bind-ok, bind-panic, ltb, arith, Bool-cases, Option-cases, inl, inr, ◌⊎◌,
}
use solarium.Pyth.Bytes.{to_le_bytes, index, set_index}
use solarium.Pyth.Processor.CreatePriceAccount.{PythClient, store_bytes, store_zeros, initialize}

length-set : (xs : List ℕ) (i v : ℕ) → length (set xs i v) ≡ length xs
length-set [] i v = refl
length-set (x ∷ xs) zero v = refl
length-set (x ∷ xs) (suc i) v = ap suc (length-set xs i v)

-- A loop panics, or it succeeds and the buffer keeps its length.
abbrev KeepsLength {ℓ} : {E : Type ℓ} → List ℕ → Outcome E (List ℕ) → Type ℓ
KeepsLength {E} buffer r =
    (r ≡ panic) ⊎ ((after : List ℕ) × (r ≡ ok after) × (length after ≡ length buffer))

module _ {ℓ} {E : Type ℓ} where
  set_index-KeepsLength :
      (buffer : List ℕ) (i b : ℕ) → KeepsLength {E = E} buffer (set_index buffer i b)
  unfolding set_index
  set_index-KeepsLength buffer i b = elim (Bool-cases (ltb i (length buffer))) [
    | inl inside ↦ inr (set buffer i b, rw inside, length-set buffer i b)
    | inr outside ↦ inl (rw outside)
  ]

  store_bytes-KeepsLength :
      (n x start : ℕ) (bytes buffer : List ℕ)
      → KeepsLength {E = E} buffer (store_bytes n x start bytes buffer)
  unfolding store_bytes index
  store_bytes-KeepsLength zero x start bytes buffer = inr (buffer, refl, refl)
  store_bytes-KeepsLength (suc n) x start bytes buffer =
      elim (Option-cases (get_elem? bytes (x - start))) [
        | inl outside ↦ inl (rw outside)
        | inr (b, found) ↦ rw found (elim (set_index-KeepsLength buffer x b) [
          | inl stops ↦ inl (rw stops)
          | inr (after, e, same) ↦
              rw e (elim (store_bytes-KeepsLength n (x + 1) start bytes after) [
                | inl stops ↦ inl stops
                | inr (last, p, q) ↦ inr (last, p, q ∙ same)
              ])
        ])
      ]

  -- A loop that is to write behind the end of the buffer panics.
  store_zeros_short :
      (n x : ℕ) (buffer : List ℕ)
      → length buffer < x + suc n
      → store_zeros {E = E} (suc n) x buffer ≡ panic
  unfolding store_zeros set_index
  store_zeros_short zero x buffer h = elim (Bool-cases (ltb x (length buffer))) [
    | inr outside ↦ rw outside
    | inl inside ↦ absurd (ground arith)
  ]
  store_zeros_short (suc n) x buffer h = elim (Bool-cases (ltb x (length buffer))) [
    | inr outside ↦ rw outside
    | inl inside ↦
        rw inside
          (store_zeros_short n (x + 1) (set buffer x 0) (omega (arith, length-set buffer x 0)))
  ]

  KeepsLength-bind :
      (buffer : List ℕ) (m : Outcome E (List ℕ)) (f : List ℕ → Outcome E (List ℕ))
      → KeepsLength buffer m
      → ((after : List ℕ) → length after ≡ length buffer → f after ≡ panic)
      → (m >>= f) ≡ panic
  KeepsLength-bind buffer m f (inl stops) h = bind-panic f stops
  KeepsLength-bind buffer m f (inr (after, e, same)) h = bind-ok f e (h after same)

module _ (client : PythClient) where
  pub initialize_short {ℓ} :
      {E : Type ℓ} (buffer : List ℕ)
      → length buffer < 3312
      → initialize client {E = E} buffer ≡ panic
  unfolding initialize
  initialize_short buffer h =
      KeepsLength-bind buffer _ _
        (store_bytes-KeepsLength 4 0 0 (to_le_bytes 4 client.magic) buffer)
        λ b1 e1.
          KeepsLength-bind b1 _ _
            (store_bytes-KeepsLength 4 4 4 (to_le_bytes 4 client.version_2) b1)
            λ b2 e2.
              KeepsLength-bind b2 _ _
                (store_bytes-KeepsLength 4 8 8 (to_le_bytes 4 client.account_type_price) b2)
                λ b3 e3. bind-panic _ (store_zeros_short 3299 12 b3 (omega arith))
