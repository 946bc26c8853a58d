-- ===== src/Pyth/Pack/Laws.antt =====
-- What an implementation of `PythPack` promises: its first `len` bytes are a fixed layout of the
-- value, reading is the inverse of writing, nothing behind the layout is read or written, and a
-- buffer that is too short is a panic.
use solarium.Base.{
  ℕ, ◌≤◌, ◌<◌, ◌≡◌, sym, ap, ◌∙◌, List, [], ◌++◌, append-nil, length, take, drop, take_all,
  drop_all, All, ok, panic, arith,
}
use solarium.Pyth.Bytes.{IsByte}
use solarium.Pyth.Pack.{PythPack}

pub record PackLaws {A : Type 0} (P : PythPack A) (Fits : A → Type 0) (layout : A → List ℕ)
    : Type 0 where
  pub length-layout : (a : A) → Fits a → length (layout a) ≡ P.len
  pub layout-IsByte : (a : A) → Fits a → All IsByte (layout a)
  pub pack_lem :
      (a : A) (dst : List ℕ)
      → Fits a
      → P.len ≤ length dst
      → P.pack_into_slice a dst ≡ ok (layout a ++ drop P.len dst)
  pub pack_short : (a : A) (dst : List ℕ) → length dst < P.len → P.pack_into_slice a dst ≡ panic
  pub unpack-layout :
      (a : A) (rest : List ℕ) → Fits a → P.unpack_from_slice (layout a ++ rest) ≡ ok a
  pub layout-unpack :
      (a : A) (src : List ℕ)
      → All IsByte src
      → P.unpack_from_slice src ≡ ok a
      → (layout a ≡ take P.len src) × Fits a
  pub unpack_short : (src : List ℕ) → length src < P.len → P.unpack_from_slice src ≡ panic

-- The laws on an array of exactly `len` bytes, as a struct's field is.
module _ {A : Type 0} {P : PythPack A} {Fits : A → Type 0} {layout : A → List ℕ}
    (L : PackLaws P Fits layout) where
  pub unpack-layout_whole : (a : A) → Fits a → P.unpack_from_slice (layout a) ≡ ok a
  unpack-layout_whole a f =
      ap P.unpack_from_slice (sym (append-nil (layout a))) ∙ L.unpack-layout a [] f

  pub layout-unpack_whole :
      (a : A) (src : List ℕ)
      → All IsByte src
      → length src ≡ P.len
      → P.unpack_from_slice src ≡ ok a
      → (layout a ≡ src) × Fits a
  layout-unpack_whole a src b h e =
      let (same, f) = L.layout-unpack a src b e in (same ∙ take_all src P.len h, f)

  pub pack_whole :
      (a : A) (dst : List ℕ) → Fits a → length dst ≡ P.len → P.pack_into_slice a dst ≡ ok (layout a)
  pack_whole a dst f h =
      L.pack_lem a dst f (omega arith)
      ∙ ap ok (ap (λ l. layout a ++ l) (drop_all dst P.len h) ∙ append-nil (layout a))
