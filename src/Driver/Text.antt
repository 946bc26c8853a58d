-- ===== src/Driver/Text.antt =====
-- Texts as the codes of their characters, and the printing of numbers that `to_string` does.
pub mod Laws
use Prim.Native.Char.{code}
use Prim.Native.String.{String}
use solarium.Base.{ℕ, zero, suc, ◌+◌, ◌/◌, ◌%◌, List, [], ◌∷◌, ◌++◌, ltb, if◌then◌else◌}

abbrev pub Text : Type 0
Text = List ℕ

abbrev pub text : String → Text
text String.[] = []
text (String.◌∷◌ c s) = code c ∷ text s

-- The decimal digits of a number, with more rounds than it has digits.
pub digits : ℕ → ℕ → Text
digits zero n = []
digits (suc rounds) n =
    let front = digits rounds (n / 10) in
    if ltb n 10 then (48 + n) ∷ [] else front ++ ((48 + n % 10) ∷ [])

unfoldable pub to_string : ℕ → Text
unfolding digits
to_string n = digits (suc n) n
