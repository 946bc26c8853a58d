-- ===== src/Pyth/Pack/Structs.antt =====
-- A struct that is read and written piece by piece meets the laws of `PythPack`, if its pieces do.
use solarium.Base.{
  ℕ, ◌≤◌, ◌<◌, ◌≡◌, sym, ap, ◌∙◌, List, [], ◌∷◌, length, take, length-take, All, All-append,
  All-take, take_all, ok, arith, leb, Bool-cases, inl, inr,
}
use solarium.Pyth.Bytes.{IsByte}
use solarium.Pyth.Bytes.Pieces.{
  sum, cut, join, HasWidths, length-join, join-cut, cut-HasWidths, cut-AllBytes,
}
use solarium.Pyth.Types.{Result}
use solarium.Pyth.Crates.{Crates, CratesLaws}
use solarium.Pyth.Pack.Fields.{
  read_fields, write_fields, read_fields_lem, read_fields_short, read_fields-join, write_fields_lem,
  write_fields_short,
}
use solarium.Pyth.Pack.Laws.{PackLaws}

pub record StructLaws {A : Type 0} (ws : List ℕ) (read : List (List ℕ) → Result A)
    (write : A → List (List ℕ) → Result (List (List ℕ))) (Fits : A → Type 0)
    (pieces : A → List (List ℕ)) : Type 0 where
  pub pieces-HasWidths : (a : A) → Fits a → HasWidths ws (pieces a)
  pub pieces-AllBytes : (a : A) → Fits a → All (All IsByte) (pieces a)
  pub read-pieces : (a : A) → Fits a → read (pieces a) ≡ ok a
  pub pieces-read :
      (ps : List (List ℕ)) (a : A)
      → HasWidths ws ps
      → All (All IsByte) ps
      → read ps ≡ ok a
      → (pieces a ≡ ps) × Fits a
  pub write-pieces :
      (a : A) (ps : List (List ℕ)) → Fits a → HasWidths ws ps → write a ps ≡ ok (pieces a)

join-AllBytes : (ps : List (List ℕ)) → All (All IsByte) ps → All IsByte (join ps)
join-AllBytes [] h = tt
join-AllBytes (p ∷ ps) h = All-append IsByte p (join ps) h.0 (join-AllBytes ps h.1)

module _ (c : Crates) (L : CratesLaws c) {A : Type 0} {ws : List ℕ}
    {read : List (List ℕ) → Result A} {write : A → List (List ℕ) → Result (List (List ℕ))}
    {Fits : A → Type 0} {pieces : A → List (List ℕ)}
    (S : StructLaws ws read write Fits pieces) where
  layout-read :
      (a : A) (src : List ℕ)
      → All IsByte src
      → read_fields c (sum ws) ws read src ≡ ok a
      → (join (pieces a) ≡ take (sum ws) src) × Fits a
  layout-read a src b e = elim (Bool-cases (leb (sum ws) (length src))) [
    | inl fits ↦
        let array = take (sum ws) src in
        let enough : sum ws ≤ length src = ground arith in
        let wide : HasWidths ws (cut ws array) =
          cut-HasWidths ws array (omega (arith, length-take (sum ws) src)) in
        let bytes : All (All IsByte) (cut ws array) =
          cut-AllBytes ws array (All-take IsByte (sum ws) src b) in
        let (same, fit) =
          S.pieces-read (cut ws array) a wide bytes
            (sym (read_fields_lem c L ws read src enough) ∙ e) in
        (
          ap join same
              ∙ join-cut ws array
              ∙ take_all array (sum ws) (omega (arith, length-take (sum ws) src)),
          fit,
        )
    | inr short ↦
        let less : length src < sum ws = ground arith in cc (read_fields_short c L ws read src less)
  ]

  pub struct-PackLaws :
      PackLaws
        (record {
          len = sum ws;
          unpack_from_slice = read_fields c (sum ws) ws read;
          pack_into_slice = λ a. write_fields c (sum ws) ws (write a);
        })
        Fits
        (λ a. join (pieces a))
  struct-PackLaws = record {
    length-layout = λ a f. length-join ws (pieces a) (S.pieces-HasWidths a f);
    layout-IsByte = λ a f. join-AllBytes (pieces a) (S.pieces-AllBytes a f);
    pack_lem = λ a dst f h. write_fields_lem c L ws (write a) dst h (
        S.write-pieces a _ f
          (cut-HasWidths ws (take (sum ws) dst) (omega (arith, length-take (sum ws) dst))));
    pack_short = λ a dst h. write_fields_short c L ws (write a) dst h;
    unpack-layout = λ a rest f.
        read_fields-join c L ws read (pieces a) rest (S.pieces-HasWidths a f) ∙ S.read-pieces a f;
    layout-unpack = layout-read;
    unpack_short = λ src h. read_fields_short c L ws read src h;
  }
