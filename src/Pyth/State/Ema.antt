-- ===== src/Pyth/State/Ema.antt =====
-- pyth/src/state.rs: `impl PythPack for Ema`.
use mathlib.Core.Path.{subst}
use solarium.Base.{ℕ, ◌≡◌, refl, List, [], ◌∷◌, All, ok, panic, ok-injective, arith}
use solarium.Pyth.Bytes.{IsByte, signed_to_le_bytes, signed_from_le_bytes}
use solarium.Pyth.Bytes.RoundTrip
use solarium.Pyth.Bytes.Pieces.{join, HasWidths}
use solarium.Pyth.Types.{Result, Ema, EmaFits}
use solarium.Pyth.Crates.{Crates, CratesLaws}
use solarium.Pyth.Pack.{PythPack}
use solarium.Pyth.Pack.Fields.{read_fields, write_fields}
use solarium.Pyth.Pack.Laws.{PackLaws}
use solarium.Pyth.Pack.Structs.{StructLaws, struct-PackLaws}

abbrev pub len : ℕ
len = 24

abbrev field_widths : List ℕ
field_widths = 8 ∷ 8 ∷ 8 ∷ []

unfoldable pub read : List (List ℕ) → Result Ema
read (val ∷ numer ∷ denom ∷ []) = do
  let val = signed_from_le_bytes 8 val
  let numer = signed_from_le_bytes 8 numer
  let denom = signed_from_le_bytes 8 denom
  ok (record { val = val; numer = numer; denom = denom })
read _ = panic

unfoldable pub write : Ema → List (List ℕ) → Result (List (List ℕ))
write self (val_dst ∷ numer_dst ∷ denom_dst ∷ []) = do
  let val_dst = signed_to_le_bytes 8 self.val
  let numer_dst = signed_to_le_bytes 8 self.numer
  let denom_dst = signed_to_le_bytes 8 self.denom
  ok (val_dst ∷ numer_dst ∷ denom_dst ∷ [])
write self _ = panic

module _ (c : Crates) where
  unfoldable pub unpack_from_slice : List ℕ → Result Ema
  unfolding read read_fields signed_from_le_bytes
  unpack_from_slice src = read_fields c len field_widths read src

  unfoldable pub pack_into_slice : Ema → List ℕ → Result (List ℕ)
  unfolding write write_fields signed_to_le_bytes
  pack_into_slice self dst = write_fields c len field_widths (write self) dst

  abbrev pub ema : PythPack Ema
  ema = record {
    len = len;
    unpack_from_slice = unpack_from_slice;
    pack_into_slice = pack_into_slice;
  }

-- The layout of the 24 bytes.
abbrev pub pieces : Ema → List (List ℕ)
pieces e =
    signed_to_le_bytes 8 e.val ∷ signed_to_le_bytes 8 e.numer ∷ signed_to_le_bytes 8 e.denom ∷ []

abbrev pub layout : Ema → List ℕ
layout e = join (pieces e)

read-pieces : (e : Ema) → EmaFits e → read (pieces e) ≡ ok e
unfolding read
read-pieces e f = rw (
  RoundTrip.signed_from_le_bytes-signed_to_le_bytes 8 e.val f.val,
  RoundTrip.signed_from_le_bytes-signed_to_le_bytes 8 e.numer f.numer,
  RoundTrip.signed_from_le_bytes-signed_to_le_bytes 8 e.denom f.denom,
)

pieces-read :
    (ps : List (List ℕ)) (e : Ema)
    → HasWidths field_widths ps
    → All (All IsByte) ps
    → read ps ≡ ok e
    → (pieces e ≡ ps) × EmaFits e
unfolding read
pieces-read (val ∷ numer ∷ denom ∷ []) e w b r =
    let ps : List (List ℕ) = val ∷ numer ∷ denom ∷ [] in
    subst (λ (e : Ema). (pieces e ≡ ps) × EmaFits e) (ok-injective _ e r)
      (
        rw (
          RoundTrip.signed_to_le_bytes-signed_from_le_bytes 8 val b.0 w.0,
          RoundTrip.signed_to_le_bytes-signed_from_le_bytes 8 numer b.1.0 w.1.0,
          RoundTrip.signed_to_le_bytes-signed_from_le_bytes 8 denom b.1.1.0 w.1.1.0,
        ),
        record {
          val = RoundTrip.signed_from_le_bytes-IsSigned 8 val b.0 w.0;
          numer = RoundTrip.signed_from_le_bytes-IsSigned 8 numer b.1.0 w.1.0;
          denom = RoundTrip.signed_from_le_bytes-IsSigned 8 denom b.1.1.0 w.1.1.0;
        },
      )
pieces-read _ e w b r = cc

write-pieces :
    (e : Ema) (ps : List (List ℕ))
    → EmaFits e
    → HasWidths field_widths ps
    → write e ps ≡ ok (pieces e)
unfolding write
write-pieces e (val ∷ numer ∷ denom ∷ []) f w = refl
write-pieces e _ f w = ground arith

struct_laws : StructLaws field_widths read write EmaFits pieces
struct_laws = record {
  pieces-HasWidths = λ e f. omega (arith, RoundTrip.length-signed_to_le_bytes);
  pieces-AllBytes = λ e f. (
    RoundTrip.signed_to_le_bytes-IsByte 8 e.val,
    (
      RoundTrip.signed_to_le_bytes-IsByte 8 e.numer,
      (RoundTrip.signed_to_le_bytes-IsByte 8 e.denom, tt),
    ),
  );
  read-pieces = read-pieces;
  pieces-read = pieces-read;
  write-pieces = write-pieces;
}

module _ (c : Crates) (L : CratesLaws c) where
  -- `Ema` meets the laws of `PythPack` with the layout above.
  pub ema-PackLaws : PackLaws (ema c) EmaFits layout
  unfolding unpack_from_slice pack_into_slice
  ema-PackLaws = struct-PackLaws c L struct_laws
