-- ===== src/Pyth/Processor/CreatePriceAccount/Loops.antt =====
-- The loops of pyth/src/processor/create_price_account.rs overwrite a part of the buffer.
use solarium.Base.{
  ℕ, zero, suc, ◌+◌, ◌-◌, ◌≡◌, refl, ap, ◌∙◌, List, [], ◌∷◌, ◌++◌, append_assoc, length,
  length-append, get_elem?, set, some, ok, lt→ltb, arith,
}
use solarium.Pyth.Bytes.{index, set_index, zeros}
use solarium.Pyth.Bytes.Pieces.{sum, join, HasWidths, length-join, prepend, prepend-join}
use solarium.Pyth.Processor.CreatePriceAccount.{store_bytes, store_zeros}

get_elem?-append :
    (front : List ℕ) (b : ℕ) (back : List ℕ) (i : ℕ)
    → length front ≡ i
    → get_elem? (front ++ (b ∷ back)) i ≡ some b
get_elem?-append [] b back zero h = refl
get_elem?-append [] b back (suc i) h = absurd (omega arith)
get_elem?-append (x ∷ front) b back zero h = absurd (omega arith)
get_elem?-append (x ∷ front) b back (suc i) h = get_elem?-append front b back i (omega arith)

set-append :
    (front : List ℕ) (o b : ℕ) (back : List ℕ) (i : ℕ)
    → length front ≡ i
    → set (front ++ (o ∷ back)) i b ≡ front ++ (b ∷ back)
set-append [] o b back zero h = refl
set-append [] o b back (suc i) h = absurd (omega arith)
set-append (x ∷ front) o b back zero h = absurd (omega arith)
set-append (x ∷ front) o b back (suc i) h =
    ap (λ l. x ∷ l) (set-append front o b back i (omega arith))

module _ {ℓ} {E : Type ℓ} where
  index-append :
      (front : List ℕ) (b : ℕ) (back : List ℕ) (i : ℕ)
      → length front ≡ i
      → index {E = E} (front ++ (b ∷ back)) i ≡ ok b
  unfolding index
  index-append front b back i h = rw (get_elem?-append front b back i h)

  set_index-append :
      (front : List ℕ) (o b : ℕ) (back : List ℕ) (i : ℕ)
      → length front ≡ i
      → set_index {E = E} (front ++ (o ∷ back)) i b ≡ ok (front ++ (b ∷ back))
  unfolding set_index
  set_index-append front o b back i h =
      rw (lt→ltb i (length (front ++ (o ∷ back))) (omega (arith, length-append front (o ∷ back))))
        (ap ok (set-append front o b back i h))

  store_bytes-append :
      (written bytes pre old post : List ℕ) (x start : ℕ)
      → length old ≡ length bytes
      → length pre ≡ x
      → start + length written ≡ x
      → store_bytes {E = E} (length bytes) x start (written ++ bytes) (pre ++ (old ++ post))
        ≡ ok (pre ++ (bytes ++ post))
  unfolding store_bytes
  store_bytes-append written [] pre [] post x start h p s = refl
  store_bytes-append written [] pre (o ∷ old) post x start h p s = absurd (omega arith)
  store_bytes-append written (b ∷ bytes) pre [] post x start h p s = absurd (omega arith)
  store_bytes-append written (b ∷ bytes) pre (o ∷ old) post x start h p s =
      rw
        (
          index-append written b bytes (x - start) (omega arith),
          set_index-append pre o b (old ++ post) x p,
          ← append_assoc written (b ∷ []) bytes,
          ← append_assoc pre (b ∷ []) (old ++ post),
        )
        (store_bytes-append (written ++ b ∷ []) bytes (pre ++ b ∷ []) old post (x + 1) start
            (omega arith) (omega (arith, length-append pre (b ∷ [])))
            (omega (arith, length-append written (b ∷ [])))
          ∙ ap ok (append_assoc pre (b ∷ []) (bytes ++ post)))

  store_zeros-append :
      (pre old post : List ℕ) (n x : ℕ)
      → length old ≡ n
      → length pre ≡ x
      → store_zeros {E = E} n x (pre ++ (old ++ post)) ≡ ok (pre ++ (zeros n ++ post))
  unfolding store_zeros zeros
  store_zeros-append pre [] post zero x h p = refl
  store_zeros-append pre (o ∷ old) post zero x h p = absurd (omega arith)
  store_zeros-append pre [] post (suc n) x h p = absurd (omega arith)
  store_zeros-append pre (o ∷ old) post (suc n) x h p =
      rw (set_index-append pre o 0 (old ++ post) x p, ← append_assoc pre (0 ∷ []) (old ++ post))
        (store_zeros-append (pre ++ 0 ∷ []) old post n (x + 1) (omega arith)
            (omega (arith, length-append pre (0 ∷ [])))
          ∙ ap ok (append_assoc pre (0 ∷ []) (zeros n ++ post)))

  module _ (ws : List ℕ) (ps : List (List ℕ)) (wide : HasWidths ws ps) (n : ℕ) (old post : List ℕ)
      (room : length old ≡ n) where
    -- The loop over the `n` bytes behind `ps` puts `bytes` there.
    pub store_bytes_behind :
        (bytes : List ℕ)
        → length bytes ≡ n
        → store_bytes {E = E} n (sum ws) (sum ws) bytes (prepend ps (old ++ post))
          ≡ ok (prepend ps (bytes ++ post))
    store_bytes_behind bytes size =
        rw (prepend-join ps (old ++ post), prepend-join ps (bytes ++ post), ← size)
          (store_bytes-append [] bytes (join ps) old post (sum ws) (sum ws) (omega arith)
            (length-join ws ps wide) (omega arith))

    pub store_zeros_behind :
        store_zeros {E = E} n (sum ws) (prepend ps (old ++ post))
        ≡ ok (prepend ps (zeros n ++ post))
    store_zeros_behind =
        rw (prepend-join ps (old ++ post), prepend-join ps (zeros n ++ post))
          (store_zeros-append (join ps) old post n (sum ws) room (length-join ws ps wide))
