-- ===== src/Pyth/Crates.antt =====
-- What the program takes from the crates arrayref (`array_ref!`, `array_refs!` and their mutable
-- versions) and num_enum (the derived conversions between an enum and its representation).
pub mod Documented
pub mod Enums
use solarium.Base.{ℕ, ◌+◌, ◌≤◌, ◌<◌, ◌≡◌, List, ◌++◌, length, take, drop, Option, none, some}
use solarium.Pyth.Bytes.Pieces.{sum, cut, join}
use solarium.Pyth.Types.{
  PriceStatus, CorpAction, PriceType, PythInstructionId, status_discriminant, corp_act_discriminant,
  ptype_discriminant, id_discriminant,
}

-- The conversions that num_enum derives for an enum.
pub record NumEnum (T : Type 0) : Type 0 where
  pub try_from_primitive : ℕ → Option T
  pub into_primitive : T → ℕ

-- A mutable view is what it shows, with the function that puts new contents in its place. `none` is
-- the panic of a view out of bounds.
pub record Crates : Type 0 where
  pub array_ref : List ℕ → ℕ → ℕ → Option (List ℕ)
  pub array_mut_ref : List ℕ → ℕ → ℕ → Option (List ℕ × (List ℕ → List ℕ))
  pub array_refs : List ℕ → List ℕ → List (List ℕ)
  pub mut_array_refs : List ℕ → List ℕ → List (List ℕ) × (List (List ℕ) → List ℕ)
  pub status : NumEnum PriceStatus
  pub corp_act : NumEnum CorpAction
  pub ptype : NumEnum PriceType
  pub id : NumEnum PythInstructionId

pub record NumEnumLaws {T : Type 0} (discriminant : T → ℕ) (e : NumEnum T) : Type 0 where
  pub into_lem : (v : T) → e.into_primitive v ≡ discriminant v
  pub from_some : (n : ℕ) (v : T) → e.try_from_primitive n ≡ some v → discriminant v ≡ n
  pub from_discriminant : (v : T) → e.try_from_primitive (discriminant v) ≡ some v

-- What the crates document. The pieces of `array_refs!` have the stated widths, in order, and
-- together they are the whole array.
pub record CratesLaws (c : Crates) : Type 0 where
  pub array_ref_some :
      (src : List ℕ) (off len : ℕ)
      → off + len ≤ length src
      → c.array_ref src off len ≡ some (take len (drop off src))
  pub array_ref_none :
      (src : List ℕ) (off len : ℕ) → length src < off + len → c.array_ref src off len ≡ none
  pub array_mut_ref_some :
      (dst : List ℕ) (off len : ℕ)
      → off + len ≤ length dst
      → c.array_mut_ref dst off len
        ≡ some (take len (drop off dst), λ new. take off dst ++ (new ++ drop (off + len) dst))
  pub array_mut_ref_none :
      (dst : List ℕ) (off len : ℕ) → length dst < off + len → c.array_mut_ref dst off len ≡ none
  pub array_refs_lem : (src ws : List ℕ) → length src ≡ sum ws → c.array_refs src ws ≡ cut ws src
  pub mut_array_refs_lem :
      (dst ws : List ℕ) → length dst ≡ sum ws → c.mut_array_refs dst ws ≡ (cut ws dst, join)
  pub status : NumEnumLaws status_discriminant c.status
  pub corp_act : NumEnumLaws corp_act_discriminant c.corp_act
  pub ptype : NumEnumLaws ptype_discriminant c.ptype
  pub id : NumEnumLaws id_discriminant c.id
