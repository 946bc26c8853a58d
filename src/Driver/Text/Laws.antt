-- ===== src/Driver/Text/Laws.antt =====
-- A printed number can be read back.
use solarium.Base.{
  ℕ, zero, suc, ◌+◌, ◌-◌, ◌*◌, ◌/◌, ◌%◌, ◌<◌, ◌≡◌, refl, sym, ap, ◌∙◌, [], ◌∷◌, ◌++◌, lt→ltb,
  le→ltb_false, le-cases, inl, inr, arith,
}
use solarium.Driver.Text.{Text, digits, to_string}

-- The number that digits stand for, behind those read so far.
read_from : ℕ → Text → ℕ
read_from value [] = value
read_from value (d ∷ ds) = read_from (value * 10 + (d - 48)) ds

read_from-append :
    (value : ℕ) (ds : Text) (d : ℕ)
    → read_from value (ds ++ (d ∷ [])) ≡ read_from value ds * 10 + (d - 48)
unfolding read_from
read_from-append value [] d = refl
read_from-append value (x ∷ ds) d = read_from-append (value * 10 + (x - 48)) ds d

read_from-digits : (rounds n : ℕ) → n < rounds → read_from 0 (digits rounds n) ≡ n
unfolding read_from digits
read_from-digits zero n less = absurd (omega arith)
read_from-digits (suc rounds) n less = elim (le-cases 10 n) [
  | inr small ↦ rw (lt→ltb n 10 small) (omega arith)
  | inl large ↦
      rw
        (
          le→ltb_false n 10 large,
          read_from-append 0 (digits rounds (n / 10)) (48 + n % 10),
          read_from-digits rounds (n / 10) (omega arith),
        )
        (omega arith)
]

pub to_string-injective : (m n : ℕ) → to_string m ≡ to_string n → m ≡ n
unfolding to_string
to_string-injective m n e =
    sym (read_from-digits (suc m) m (omega arith))
    ∙ (ap (read_from 0) e ∙ read_from-digits (suc n) n (omega arith))

pub append-injective : (front ds es : Text) → front ++ ds ≡ front ++ es → ds ≡ es
append-injective [] ds es e = e
append-injective (x ∷ front) ds es e = append-injective front ds es (cc e)
