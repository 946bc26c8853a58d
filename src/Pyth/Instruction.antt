-- ===== src/Pyth/Instruction.antt =====
-- pyth/src/instruction.rs: the instructions, and the functions that build two of them.
pub mod Laws
use solarium.Base.{ℕ, true, false, List, [], ◌∷◌, ok, panic, ◌>>=◌}
use solarium.Base.Int.{ℤ}
use solarium.Pyth.Bytes.{signed_to_le_bytes, signed_from_le_bytes}
use solarium.Pyth.Bytes.Pieces.{join}
use solarium.Pyth.Types.{
  Result, PythInstructionId, CreatePriceAccountInstruction, CreateProductAccountInstruction,
  CreateMappingAccountInstruction, PublishPriceInstruction,
}
use solarium.Pyth.Crates.{Crates}
use solarium.Pyth.Pack.{PythPack, PythInstruction, pack_instruction_into_vec}
use solarium.Pyth.Pack.Fields.{read_fields, write_fields}
use solarium.Solana.{SolanaProgram, Instruction}

abbrev pub create_price_account : PythInstruction CreatePriceAccountInstruction
create_price_account = record {
  pack = record {
    len = 0;
    unpack_from_slice = λ src. ok (record {});
    pack_into_slice = λ self dst. ok dst;
  };
  id = PythInstructionId.create_price_account;
}

abbrev pub create_product_account : PythInstruction CreateProductAccountInstruction
create_product_account = record {
  pack = record {
    len = 0;
    unpack_from_slice = λ src. ok (record {});
    pack_into_slice = λ self dst. ok dst;
  };
  id = PythInstructionId.create_product_account;
}

abbrev pub create_mapping_account : PythInstruction CreateMappingAccountInstruction
create_mapping_account = record {
  pack = record {
    len = 0;
    unpack_from_slice = λ src. ok (record {});
    pack_into_slice = λ self dst. ok dst;
  };
  id = PythInstructionId.create_mapping_account;
}

abbrev pub publish_len : ℕ
publish_len = 12

abbrev pub publish_widths : List ℕ
publish_widths = 8 ∷ 4 ∷ []

unfoldable pub read_publish : List (List ℕ) → Result PublishPriceInstruction
read_publish (price ∷ decimal ∷ []) = do
  let price = signed_from_le_bytes 8 price
  let decimal = signed_from_le_bytes 4 decimal
  ok (record { price = price; decimal = decimal })
read_publish _ = panic

pub write_publish : PublishPriceInstruction → List (List ℕ) → Result (List (List ℕ))
write_publish self (tp_dst ∷ dec_dst ∷ []) = do
  let tp_dst = signed_to_le_bytes 8 self.price
  let dec_dst = signed_to_le_bytes 4 self.decimal
  ok (tp_dst ∷ dec_dst ∷ [])
write_publish self _ = panic

module _ (c : Crates) where
  unfoldable pub unpack_publish : List ℕ → Result PublishPriceInstruction
  unfolding read_publish read_fields signed_from_le_bytes
  unpack_publish src = read_fields c publish_len publish_widths read_publish src

  unfoldable pub pack_publish : PublishPriceInstruction → List ℕ → Result (List ℕ)
  unfolding write_publish write_fields signed_to_le_bytes
  pack_publish self dst = write_fields c publish_len publish_widths (write_publish self) dst

  abbrev pub publish_price_instruction : PythInstruction PublishPriceInstruction
  publish_price_instruction = record {
    pack = record {
      len = publish_len;
      unpack_from_slice = unpack_publish;
      pack_into_slice = pack_publish;
    };
    id = PythInstructionId.publish_price;
  }

-- The layout of the 12 bytes.
abbrev pub publish_pieces : PublishPriceInstruction → List (List ℕ)
publish_pieces i = signed_to_le_bytes 8 i.price ∷ signed_to_le_bytes 4 i.decimal ∷ []

abbrev pub publish_layout : PublishPriceInstruction → List ℕ
publish_layout i = join (publish_pieces i)

module _ (c : Crates) (s : SolanaProgram) where
  pub create_price_acc : s.Pubkey → s.Pubkey → s.Pubkey → Result (Instruction s)
  create_price_acc program_id payer acct_pkey = do
    payload ← pack_instruction_into_vec c create_price_account (record {})
    let accounts = s.new_readonly payer true ∷ s.new_writable acct_pkey false ∷ []
    ok (record { program_id = program_id; accounts = accounts; payload = payload })

  pub publish_price : s.Pubkey → s.Pubkey → s.Pubkey → ℤ → ℤ → Result (Instruction s)
  publish_price program_id payer acct_pkey price decimal = do
    payload ←
        pack_instruction_into_vec c (publish_price_instruction c)
          (record { price = price; decimal = decimal })
    let accounts = s.new_readonly payer true ∷ s.new_writable acct_pkey false ∷ []
    ok (record { program_id = program_id; accounts = accounts; payload = payload })
