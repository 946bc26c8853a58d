-- ===== src/Pyth/Pack/Items.antt =====
-- Arrays of a type that meets the laws of `PythPack`: `pack_items_into_slice` writes the layouts one
-- behind the other, and `unpack_items_from_slice` reads them back.
use solarium.Base.{
  ℕ, ◌+◌, ◌*◌, ◌≤◌, ◌≡◌, refl, sym, ap, ◌∙◌, List, [], ◌∷◌, ◌++◌, append-nil, append_assoc, length,
  length-append, take, drop, length-take, length-drop, take-append-drop, drop-add, All, ok, arith,
}
use solarium.Pyth.Bytes.Slices.{slice-append, with_slice-append}
use solarium.Pyth.Pack.{
  PythPack, unpack_items, unpack_items_from_slice, pack_items, pack_items_into_slice,
}
use solarium.Pyth.Pack.Laws.{PackLaws, pack_whole, unpack-layout_whole}

module _ {A : Type 0} {P : PythPack A} {Fits : A → Type 0} {layout : A → List ℕ}
    (L : PackLaws P Fits layout) where
  abbrev layouts : List A → List ℕ
  layouts [] = []
  layouts (a ∷ as') = layout a ++ layouts as'

  pack_items-append :
      (items : List A) (pre dst : List ℕ) (start end : ℕ)
      → All Fits items
      → length items * P.len ≤ length dst
      → length pre ≡ start
      → start + P.len ≡ end
      → pack_items P items start end (pre ++ dst)
        ≡ ok (pre ++ (layouts items ++ drop (length items * P.len) dst))
  unfolding pack_items
  pack_items-append [] pre dst start end f h s e =
      let none_left : 0 ≡ 0 * P.len = omega arith in
      ap (λ (k : ℕ). ok (pre ++ drop k dst)) none_left
  pack_items-append (a ∷ items) pre dst start end (fa, f) h s e =
      let mid = take P.len dst in
      let post = drop P.len dst in
      let n = length items * P.len in
      let count : length (a ∷ items) * P.len ≡ P.len + n = omega arith in
      let wide : length mid ≡ P.len = omega (arith, length-take P.len dst) in
      let size = L.length-layout a fa in
      rw (← take-append-drop P.len dst) (
        rw
          (with_slice-append pre mid post start end s (omega arith) (P.pack_into_slice a) (layout a)
            (pack_whole L a mid fa wide))
          (ap (pack_items P items (start + P.len) (end + P.len))
              (sym (append_assoc pre (layout a) post))
            ∙ pack_items-append items (pre ++ layout a) post (start + P.len) (end + P.len) f
                (omega (arith, length-drop P.len dst)) (omega (arith, length-append pre (layout a)))
                (omega arith)
            ∙ ap ok (
                rw (
                  take-append-drop P.len dst,
                  count,
                  drop-add P.len n dst,
                  append_assoc (layout a) (layouts items) (drop n post),
                  append_assoc pre (layout a) (layouts items ++ drop n post),
                ))))

  -- With room for all items, the buffer begins with their layouts, in order, and its rest is as it
  -- was.
  pub pack_items_into_slice_lem :
      (items : List A) (dst : List ℕ)
      → All Fits items
      → length items * P.len ≤ length dst
      → pack_items_into_slice P items dst ≡ ok (layouts items ++ drop (length items * P.len) dst)
  unfolding pack_items_into_slice
  pack_items_into_slice_lem items dst f h =
      pack_items-append items [] dst 0 P.len f h refl (omega arith)

  unpack_items-append :
      (items : List A) (pre rest : List ℕ) (start end : ℕ) (result : List A)
      → All Fits items
      → length pre ≡ start
      → start + P.len ≡ end
      → unpack_items P (length items) start end (pre ++ (layouts items ++ rest)) result
        ≡ ok (result ++ items)
  unfolding unpack_items
  unpack_items-append [] pre rest start end result f s e = ap ok (sym (append-nil result))
  unpack_items-append (a ∷ items) pre rest start end result (fa, f) s e =
      let size = L.length-layout a fa in
      let tail = layouts items ++ rest in
      rw (append_assoc (layout a) (layouts items) rest) (
        rw
          (
            slice-append pre (layout a) tail start end s (omega arith),
            unpack-layout_whole L a fa,
            ← append_assoc pre (layout a) tail,
          )
          (unpack_items-append items (pre ++ layout a) rest (start + P.len) (end + P.len)
              (result ++ a ∷ []) f (omega (arith, length-append pre (layout a))) (omega arith)
            ∙ ap ok (append_assoc result (a ∷ []) items)))

  -- As many items as were written are read back, whatever follows them.
  pub unpack_items_from_slice-layouts :
      (items : List A) (rest : List ℕ)
      → All Fits items
      → unpack_items_from_slice P (length items) (layouts items ++ rest) ≡ ok items
  unfolding unpack_items_from_slice
  unpack_items_from_slice-layouts items rest f =
      unpack_items-append items [] rest 0 P.len [] f refl (omega arith)
