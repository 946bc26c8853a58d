-- ===== src/Pyth/Instruction/Laws.antt =====
-- The instructions meet the laws of `PythPack`, and the builders produce their messages.
use mathlib.Core.Path.{subst}
use solarium.Base.{ℕ, true, false, ◌≡◌, refl, List, [], ◌∷◌, All, ok, ok-injective, arith}
use solarium.Base.Int.{ℤ}
use solarium.Pyth.Bytes.{IsByte, IsSigned}
use solarium.Pyth.Bytes.RoundTrip
use solarium.Pyth.Bytes.Pieces.{HasWidths}
use solarium.Pyth.Types.{CreatePriceAccountInstruction, PublishPriceInstruction, PublishPriceFits}
use solarium.Pyth.Crates.{Crates, CratesLaws}
use solarium.Pyth.Pack.Laws.{PackLaws}
use solarium.Pyth.Pack.Structs.{StructLaws, struct-PackLaws}
use solarium.Pyth.Pack.Messages.{pack_instruction_into_vec_lem}
use solarium.Pyth.Instruction.{
  create_price_account, publish_widths, read_publish, write_publish, unpack_publish, pack_publish,
  publish_price_instruction, publish_pieces, publish_layout, create_price_acc, publish_price,
}
use solarium.Solana.{SolanaProgram}

-- An instruction with no field takes no byte.
abbrev pub NoFields : CreatePriceAccountInstruction → Type 0
NoFields i = Unit

abbrev pub no_bytes : CreatePriceAccountInstruction → List ℕ
no_bytes i = []

pub create_price_account-PackLaws : PackLaws create_price_account.pack NoFields no_bytes
create_price_account-PackLaws = record {
  length-layout = λ a f. refl;
  layout-IsByte = λ a f. tt;
  pack_lem = λ a dst f h. refl;
  pack_short = λ a dst h. absurd (omega arith);
  unpack-layout = λ a rest f. refl;
  layout-unpack = λ a src b e. (refl, tt);
  unpack_short = λ src h. absurd (omega arith);
}

read-pieces :
    (i : PublishPriceInstruction) → PublishPriceFits i → read_publish (publish_pieces i) ≡ ok i
unfolding read_publish
read-pieces i f = rw (
  RoundTrip.signed_from_le_bytes-signed_to_le_bytes 8 i.price f.price,
  RoundTrip.signed_from_le_bytes-signed_to_le_bytes 4 i.decimal f.decimal,
)

pieces-read :
    (ps : List (List ℕ)) (i : PublishPriceInstruction)
    → HasWidths publish_widths ps
    → All (All IsByte) ps
    → read_publish ps ≡ ok i
    → (publish_pieces i ≡ ps) × PublishPriceFits i
unfolding read_publish
pieces-read (price ∷ decimal ∷ []) i w b e =
    let ps : List (List ℕ) = price ∷ decimal ∷ [] in
    subst (λ (i : PublishPriceInstruction). (publish_pieces i ≡ ps) × PublishPriceFits i)
      (ok-injective _ i e)
      (
        rw (
          RoundTrip.signed_to_le_bytes-signed_from_le_bytes 8 price b.0 w.0,
          RoundTrip.signed_to_le_bytes-signed_from_le_bytes 4 decimal b.1.0 w.1.0,
        ),
        record {
          price = RoundTrip.signed_from_le_bytes-IsSigned 8 price b.0 w.0;
          decimal = RoundTrip.signed_from_le_bytes-IsSigned 4 decimal b.1.0 w.1.0;
        },
      )
pieces-read _ i w b e = cc

write-pieces :
    (i : PublishPriceInstruction) (ps : List (List ℕ))
    → PublishPriceFits i
    → HasWidths publish_widths ps
    → write_publish i ps ≡ ok (publish_pieces i)
unfolding write_publish
write-pieces i (price ∷ decimal ∷ []) f w = refl
write-pieces i _ f w = ground arith

struct_laws : StructLaws publish_widths read_publish write_publish PublishPriceFits publish_pieces
struct_laws = record {
  pieces-HasWidths = λ i f. omega (arith, RoundTrip.length-signed_to_le_bytes);
  pieces-AllBytes = λ i f. (
    RoundTrip.signed_to_le_bytes-IsByte 8 i.price,
    (RoundTrip.signed_to_le_bytes-IsByte 4 i.decimal, tt),
  );
  read-pieces = read-pieces;
  pieces-read = pieces-read;
  write-pieces = write-pieces;
}

module _ (c : Crates) (L : CratesLaws c) where
  pub publish_price-PackLaws :
      PackLaws (publish_price_instruction c).pack PublishPriceFits publish_layout
  unfolding unpack_publish pack_publish
  publish_price-PackLaws = struct-PackLaws c L struct_laws

module _ (c : Crates) (L : CratesLaws c) (s : SolanaProgram)
    (program_id payer acct_pkey : s.Pubkey) where
  -- The payer signs and is read; the account is written and does not sign. The payload is the byte 0.
  pub create_price_acc_lem :
      create_price_acc c s program_id payer acct_pkey
      ≡ ok (record {
        program_id = program_id;
        accounts = s.new_readonly payer true ∷ s.new_writable acct_pkey false ∷ [];
        payload = 0 ∷ [];
      })
  unfolding create_price_acc
  create_price_acc_lem = rw (
      pack_instruction_into_vec_lem c L create_price_account create_price_account-PackLaws
        (record {}) tt)

  -- The payload is the byte 3, the price in 8 bytes and the decimals in 4.
  pub publish_price_lem :
      (price decimal : ℤ)
      → IsSigned 8 price
      → IsSigned 4 decimal
      → publish_price c s program_id payer acct_pkey price decimal
        ≡ ok (record {
          program_id = program_id;
          accounts = s.new_readonly payer true ∷ s.new_writable acct_pkey false ∷ [];
          payload = 3 ∷ publish_layout (record { price = price; decimal = decimal });
        })
  unfolding publish_price
  publish_price_lem price decimal p d = rw (
      pack_instruction_into_vec_lem c L (publish_price_instruction c) (publish_price-PackLaws c L)
        (record { price = price; decimal = decimal }) (record { price = p; decimal = d }))
