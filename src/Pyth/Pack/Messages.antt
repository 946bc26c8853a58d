-- ===== src/Pyth/Pack/Messages.antt =====
-- The provided methods of `PythInstruction`: an instruction is its identifier, then its layout.
use solarium.Base.{
  ℕ, suc, ◌+◌, ◌≤◌, ◌≡◌, ◌≢◌, List, ◌∷◌, ◌++◌, length, drop, replicate, length-replicate, ok, err,
  arith, lt→ltb, ==-refl,
}
use solarium.Pyth.Bytes.{index, set_index}
use solarium.Pyth.Bytes.Slices.{slice_tail, with_slice_tail}
use solarium.Pyth.Types.{PythError, id_discriminant}
use solarium.Pyth.Crates.{Crates, CratesLaws}
use solarium.Pyth.Pack.{
  PythInstruction, unpack_instruction, pack_instruction, pack_instruction_into_vec,
}
use solarium.Pyth.Pack.Laws.{PackLaws, pack_whole}

module _ (c : Crates) (C : CratesLaws c) {A : Type 0} (I : PythInstruction A) {Fits : A → Type 0}
    {layout : A → List ℕ} (L : PackLaws I.pack Fits layout) where
  abbrev message : A → List ℕ
  message a = id_discriminant I.id ∷ layout a

  -- A buffer with room for the identifier and the layout gets both, and keeps the rest.
  pub pack_instruction_lem :
      (a : A) (first : ℕ) (dst : List ℕ)
      → Fits a
      → I.pack.len ≤ length dst
      → pack_instruction c I a (first ∷ dst) ≡ ok (message a ++ drop I.pack.len dst)
  unfolding pack_instruction set_index
  pack_instruction_lem a first dst f h =
      rw (C.id.into_lem I.id, lt→ltb 0 (suc (length dst)) (omega arith))
        (with_slice_tail (id_discriminant I.id) dst (I.pack.pack_into_slice a)
          (layout a ++ drop I.pack.len dst) (L.pack_lem a dst f h))

  -- The new vector is the message.
  pub pack_instruction_into_vec_lem :
      (a : A) → Fits a → pack_instruction_into_vec c I a ≡ ok (message a)
  unfolding pack_instruction_into_vec set_index
  pack_instruction_into_vec_lem a f =
      let n = I.pack.len in
      let one_more : n + 1 ≡ suc n = omega arith in
      let zeros : length {A = ℕ} (replicate n 0) ≡ n = length-replicate n 0 in
      rw
        (
          one_more,
          C.id.into_lem I.id,
          lt→ltb 0 (suc (length {A = ℕ} (replicate n 0))) (omega arith),
        )
        (with_slice_tail (id_discriminant I.id) (replicate n 0) (I.pack.pack_into_slice a)
          (layout a) (pack_whole L a (replicate n 0) f zeros))

  -- What was packed is unpacked, whatever follows it.
  pub unpack_instruction-message :
      (a : A) (rest : List ℕ) → Fits a → unpack_instruction c I (message a ++ rest) ≡ ok a
  unfolding unpack_instruction index
  unpack_instruction-message a rest f =
      rw
        (
          C.id.into_lem I.id,
          ==-refl (id_discriminant I.id),
          slice_tail (id_discriminant I.id) (layout a ++ rest),
        )
        (L.unpack-layout a rest f)

  -- Another identifier is refused.
  pub unpack_instruction_other :
      (first : ℕ) (rest : List ℕ)
      → first ≢ id_discriminant I.id
      → unpack_instruction c I (first ∷ rest) ≡ err PythError.not_implemented
  unfolding unpack_instruction index
  unpack_instruction_other first rest h = ground (arith, C.id.into_lem I.id)
