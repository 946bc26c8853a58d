-- ===== src/Pyth/Pack/Fields.antt =====
-- The way that every `unpack_from_slice` and `pack_into_slice` of pyth/src goes about its array: a
-- view of the first `len` bytes, cut into pieces of fixed widths.
use solarium.Base.{
  ℕ, ◌≤◌, ◌<◌, ◌≡◌, ap, List, ◌++◌, length, take, drop, length-take, length-append, take-append,
  ◌∙◌, ok, panic, unwrap, ◌>>=◌, arith,
}
use solarium.Pyth.Bytes.Pieces.{sum, cut, join, HasWidths, cut-join, length-join}
use solarium.Pyth.Types.{Result}
use solarium.Pyth.Crates.{Crates, CratesLaws}

module _ (c : Crates) where
  -- `array_ref![src, 0, len]`, then `array_refs!` with the widths `ws`.
  unfoldable pub read_fields :
      {A : Type 0} → ℕ → List ℕ → (List (List ℕ) → Result A) → List ℕ → Result A
  read_fields len ws fields src = do
    src ← unwrap (c.array_ref src 0 len)
    fields (c.array_refs src ws)

  -- `array_mut_ref![dst, 0, len]`, then `mut_array_refs!` with the widths `ws`; `fields` writes the
  -- pieces.
  unfoldable pub write_fields :
      ℕ → List ℕ → (List (List ℕ) → Result (List (List ℕ))) → List ℕ → Result (List ℕ)
  write_fields len ws fields dst = do
    (array, put) ← unwrap (c.array_mut_ref dst 0 len)
    let (pieces, put_pieces) = c.mut_array_refs array ws
    pieces ← fields pieces
    ok (put (put_pieces pieces))

module _ (c : Crates) (L : CratesLaws c) {A : Type 0} (ws : List ℕ) where
  pub read_fields_lem :
      (fields : List (List ℕ) → Result A) (src : List ℕ)
      → sum ws ≤ length src
      → read_fields c (sum ws) ws fields src ≡ fields (cut ws (take (sum ws) src))
  unfolding read_fields
  read_fields_lem fields src h = rw (L.array_ref_some src 0 (sum ws) (omega arith)) (
      ap fields (L.array_refs_lem (take (sum ws) src) ws (omega (arith, length-take (sum ws) src))))

  pub read_fields_short :
      (fields : List (List ℕ) → Result A) (src : List ℕ)
      → length src < sum ws
      → read_fields c (sum ws) ws fields src ≡ panic
  unfolding read_fields
  read_fields_short fields src h = rw (L.array_ref_none src 0 (sum ws) (omega arith))

  pub read_fields-join :
      (fields : List (List ℕ) → Result A) (ps : List (List ℕ)) (rest : List ℕ)
      → HasWidths ws ps
      → read_fields c (sum ws) ws fields (join ps ++ rest) ≡ fields ps
  read_fields-join fields ps rest h =
      let e : length (join ps) ≡ sum ws = length-join ws ps h in
      read_fields_lem fields (join ps ++ rest) (omega (arith, length-append (join ps) rest))
      ∙ rw (take-append (join ps) rest (sum ws) e, cut-join ws ps h)

module _ (c : Crates) (L : CratesLaws c) (ws : List ℕ) where
  pub write_fields_lem :
      (fields : List (List ℕ) → Result (List (List ℕ))) (dst : List ℕ) {ps : List (List ℕ)}
      → sum ws ≤ length dst
      → fields (cut ws (take (sum ws) dst)) ≡ ok ps
      → write_fields c (sum ws) ws fields dst ≡ ok (join ps ++ drop (sum ws) dst)
  unfolding write_fields
  write_fields_lem fields dst {ps} h e = rw (L.array_mut_ref_some dst 0 (sum ws) (omega arith)) (
      rw (L.mut_array_refs_lem (take (sum ws) dst) ws (omega (arith, length-take (sum ws) dst)))
        (rw e (ap (λ k. ok (join ps ++ drop k dst)) (omega arith))))

  pub write_fields_short :
      (fields : List (List ℕ) → Result (List (List ℕ))) (dst : List ℕ)
      → length dst < sum ws
      → write_fields c (sum ws) ws fields dst ≡ panic
  unfolding write_fields
  write_fields_short fields dst h = rw (L.array_mut_ref_none dst 0 (sum ws) (omega arith))
