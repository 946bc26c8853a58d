-- ===== src/Pyth/Pack.antt =====
-- pyth/src/pack.rs: the traits `PythPack` and `PythInstruction`, a record for the required items of
-- each and a function for each provided method. A buffer `&mut [u8]` is passed in and returned; what
-- a failing call leaves in it is not modelled.
pub mod Fields
pub mod Laws
pub mod Structs
pub mod Items
pub mod Messages
use solarium.Base.{
  ℕ, zero, suc, ◌+◌, List, [], ◌∷◌, ◌++◌, drop, replicate, ok, err, ◌>>=◌, ◌==◌, if◌then◌else◌,
  length,
}
use solarium.Pyth.Bytes.{slice, with_slice, index, set_index}
use solarium.Pyth.Types.{Result, PythError, PythInstructionId}
use solarium.Pyth.Crates.{Crates}

pub record PythPack (A : Type 0) : Type 0 where
  pub len : ℕ
  pub unpack_from_slice : List ℕ → Result A
  pub pack_into_slice : A → List ℕ → Result (List ℕ)

module _ {A : Type 0} (P : PythPack A) where
  -- The loop of `unpack_items_from_slice`, with the rounds left.
  pub unpack_items : ℕ → ℕ → ℕ → List ℕ → List A → Result (List A)
  unfolding slice
  unpack_items zero start end src result = ok result
  unpack_items (suc n) start end src result = do
    bytes ← slice src start end
    item ← P.unpack_from_slice bytes
    unpack_items n (start + P.len) (end + P.len) src (result ++ item ∷ [])

  pub unpack_items_from_slice : ℕ → List ℕ → Result (List A)
  unfolding unpack_items
  unpack_items_from_slice count src = unpack_items count 0 P.len src []

  pub pack_into_vec : A → Result (List ℕ)
  pack_into_vec self = P.pack_into_slice self (replicate P.len 0)

  -- The loop of `pack_items_into_slice`, over the items left.
  pub pack_items : List A → ℕ → ℕ → List ℕ → Result (List ℕ)
  unfolding with_slice
  pack_items [] start end dst = ok dst
  pack_items (item ∷ items) start end dst = do
    dst ← with_slice dst start end (P.pack_into_slice item)
    pack_items items (start + P.len) (end + P.len) dst

  pub pack_items_into_slice : List A → List ℕ → Result (List ℕ)
  unfolding pack_items
  pack_items_into_slice items dst = pack_items items 0 P.len dst

pub record PythInstruction (A : Type 0) : Type 0 where
  pub pack : PythPack A
  pub open pack use *
  pub id : PythInstructionId

module _ (c : Crates) {A : Type 0} (I : PythInstruction A) where
  pub unpack_instruction : List ℕ → Result A
  unfolding slice index
  unpack_instruction src = do
    let id = c.id.into_primitive I.id
    first ← index src 0
    if first == id
        then (slice src 1 (length src) >>= I.pack.unpack_from_slice)
        else err PythError.not_implemented

  pub pack_instruction : A → List ℕ → Result (List ℕ)
  unfolding with_slice set_index
  pack_instruction self dst = do
    let identifier = c.id.into_primitive I.id
    dst ← set_index dst 0 identifier
    with_slice dst 1 (length dst) (I.pack.pack_into_slice self)

  pub pack_instruction_into_vec : A → Result (List ℕ)
  unfolding with_slice set_index
  pack_instruction_into_vec self = do
    let instr_data = replicate (I.pack.len + 1) 0
    let identifier = c.id.into_primitive I.id
    instr_data ← set_index instr_data 0 identifier
    with_slice instr_data 1 (length instr_data) (I.pack.pack_into_slice self)
