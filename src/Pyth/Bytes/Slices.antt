-- ===== src/Pyth/Bytes/Slices.antt =====
-- Slices and indices of a buffer that is given in parts.
use solarium.Base.{
  ℕ, zero, suc, ◌+◌, ◌-◌, ◌<◌, ◌≡◌, refl, sym, ap, ◌∙◌, List, [], ◌∷◌, ◌++◌, length, length-append,
  take-append, drop-append, append_assoc, append-nil, length-replicate, replicate-add, All, Outcome,
  ok, panic, le→leb, lt→leb_false, arith,
}
use solarium.Pyth.Bytes.{IsByte, slice, with_slice, zeros}

module _ {ℓ} {E : Type ℓ} (pre mid post : List ℕ) (start end : ℕ) (at_start : length pre ≡ start)
    (at_end : length pre + length mid ≡ end) where
  pub slice-append : slice {E = E} (pre ++ (mid ++ post)) start end ≡ ok mid
  unfolding slice
  slice-append =
      rw
        (
          le→leb start end (omega arith),
          le→leb end (length (pre ++ (mid ++ post)))
              (omega (arith, length-append pre (mid ++ post), length-append mid post)),
        )
        (ap ok (
          rw (drop-append pre (mid ++ post) start at_start)
            (take-append mid post (end - start) (omega arith))))

  pub with_slice-append :
      (f : List ℕ → Outcome E (List ℕ)) (new : List ℕ)
      → f mid ≡ ok new
      → with_slice (pre ++ (mid ++ post)) start end f ≡ ok (pre ++ (new ++ post))
  unfolding with_slice
  with_slice-append f new e =
      rw (slice-append, e)
        (ap ok (
          rw (
            take-append pre (mid ++ post) start at_start,
            ← append_assoc pre mid post,
            drop-append (pre ++ mid) post end (omega (arith, length-append pre mid)),
          )))

pub slice_short {ℓ} :
    {E : Type ℓ} (src : List ℕ) (start end : ℕ)
    → length src < end
    → slice {E = E} src start end ≡ panic
unfolding slice
slice_short src start end h = rw (lt→leb_false end (length src) h) (ground arith)

pub with_slice_short {ℓ} :
    {E : Type ℓ} (dst : List ℕ) (start end : ℕ) (f : List ℕ → Outcome E (List ℕ))
    → length dst < end
    → with_slice dst start end f ≡ panic
unfolding with_slice
with_slice_short dst start end f h = rw (slice_short dst start end h)

-- `&src[1..]` and `&mut dst[1..]`.
pub slice_tail {ℓ} :
    {E : Type ℓ} (x : ℕ) (xs : List ℕ) → slice {E = E} (x ∷ xs) 1 (suc (length xs)) ≡ ok xs
slice_tail x xs =
    ap (λ l. slice (x ∷ l) 1 (suc (length xs))) (sym (append-nil xs))
    ∙ slice-append (x ∷ []) xs [] 1 (suc (length xs)) refl (omega arith)

pub with_slice_tail {ℓ} :
    {E : Type ℓ} (x : ℕ) (xs : List ℕ) (f : List ℕ → Outcome E (List ℕ)) (new : List ℕ)
    → f xs ≡ ok new
    → with_slice (x ∷ xs) 1 (suc (length xs)) f ≡ ok (x ∷ new)
with_slice_tail x xs f new e =
    ap (λ l. with_slice (x ∷ l) 1 (suc (length xs)) f) (sym (append-nil xs))
    ∙ with_slice-append (x ∷ []) xs [] 1 (suc (length xs)) refl (omega arith) f new e
    ∙ ap (λ l. ok (x ∷ l)) (append-nil new)

pub length-zeros : (n : ℕ) → length (zeros n) ≡ n
unfolding zeros
length-zeros n = length-replicate n 0

pub zeros-add : (m n : ℕ) → zeros (m + n) ≡ zeros m ++ zeros n
unfolding zeros
zeros-add m n = replicate-add m n 0

pub zeros-IsByte : (n : ℕ) → All IsByte (zeros n)
unfolding zeros
zeros-IsByte zero = tt
zeros-IsByte (suc n) = (omega arith, zeros-IsByte n)
