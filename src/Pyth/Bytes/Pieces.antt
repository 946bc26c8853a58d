-- ===== src/Pyth/Bytes/Pieces.antt =====
-- Cutting bytes into pieces of given widths, and joining pieces: what the struct layouts of
-- pyth/src/state.rs and pyth/src/instruction.rs come down to.
use solarium.Base.{
  ℕ, zero, suc, ◌+◌, ◌≤◌, ◌≡◌, refl, sym, ap, ◌∙◌, append_assoc, List, [], ◌∷◌, ◌++◌, length, take,
  drop, take-append, drop-append, take-add, length-take, length-drop, length-append, arith, All,
  All-take, All-drop,
}
use solarium.Pyth.Bytes.{IsByte}

abbrev pub sum : List ℕ → ℕ
sum [] = 0
sum (w ∷ ws) = w + sum ws

-- Consecutive pieces of the widths `ws` from the front of `src`.
abbrev pub cut : List ℕ → List ℕ → List (List ℕ)
cut [] src = []
cut (w ∷ ws) src = take w src ∷ cut ws (drop w src)

abbrev pub join : List (List ℕ) → List ℕ
join [] = []
join (p ∷ ps) = p ++ join ps

-- Pairs, for what holds of each item of a list.
infixr 5 ◌&◌
abbrev pub ◌&◌ : {A B : Type 0} → A → B → A × B
a & b = (a, b)

abbrev pub HasWidths : List ℕ → List (List ℕ) → Type 0
HasWidths [] [] = Unit
HasWidths [] (p ∷ ps) = ⊥
HasWidths (w ∷ ws) [] = ⊥
HasWidths (w ∷ ws) (p ∷ ps) = (length p ≡ w) × HasWidths ws ps

pub HasWidths-take :
    (n : ℕ) (ws : List ℕ) (ps : List (List ℕ)) → HasWidths ws ps → HasWidths (take n ws) (take n ps)
HasWidths-take zero ws ps h = tt
HasWidths-take (suc n) [] [] h = tt
HasWidths-take (suc n) [] (p ∷ ps) h = absurd h
HasWidths-take (suc n) (w ∷ ws) [] h = absurd h
HasWidths-take (suc n) (w ∷ ws) (p ∷ ps) (e, h) = (e, HasWidths-take n ws ps h)

-- What `All` and `HasWidths` say of the item at a position, and nothing behind the end.
abbrev pub ByteAt : ℕ → List (List ℕ) → Type 0
ByteAt n [] = Unit
ByteAt zero (p ∷ ps) = All IsByte p
ByteAt (suc n) (p ∷ ps) = ByteAt n ps

pub bytes_at : (ps : List (List ℕ)) → All (All IsByte) ps → (n : ℕ) → ByteAt n ps
bytes_at [] h n = tt
bytes_at (p ∷ ps) h zero = h.0
bytes_at (p ∷ ps) h (suc n) = bytes_at ps h.1 n

abbrev pub WidthAt : ℕ → List ℕ → List (List ℕ) → Type 0
WidthAt n [] ps = Unit
WidthAt n (w ∷ ws) [] = Unit
WidthAt zero (w ∷ ws) (p ∷ ps) = length p ≡ w
WidthAt (suc n) (w ∷ ws) (p ∷ ps) = WidthAt n ws ps

pub width_at : (ws : List ℕ) (ps : List (List ℕ)) → HasWidths ws ps → (n : ℕ) → WidthAt n ws ps
width_at [] ps h n = tt
width_at (w ∷ ws) [] h n = tt
width_at (w ∷ ws) (p ∷ ps) h zero = h.0
width_at (w ∷ ws) (p ∷ ps) h (suc n) = width_at ws ps h.1 n

pub cut-join : (ws : List ℕ) (ps : List (List ℕ)) → HasWidths ws ps → cut ws (join ps) ≡ ps
cut-join [] [] h = refl
cut-join [] (p ∷ ps) h = absurd h
cut-join (w ∷ ws) [] h = absurd h
cut-join (w ∷ ws) (p ∷ ps) (e, h) =
    rw (take-append p (join ps) w e, drop-append p (join ps) w e)
      (ap (λ l. p ∷ l) (cut-join ws ps h))

pub length-join : (ws : List ℕ) (ps : List (List ℕ)) → HasWidths ws ps → length (join ps) ≡ sum ws
length-join [] [] h = refl
length-join [] (p ∷ ps) h = absurd h
length-join (w ∷ ws) [] h = absurd h
length-join (w ∷ ws) (p ∷ ps) (e, h) = omega (arith, length-append p (join ps), length-join ws ps h)

pub cut-HasWidths : (ws src : List ℕ) → sum ws ≤ length src → HasWidths ws (cut ws src)
cut-HasWidths [] src h = tt
cut-HasWidths (w ∷ ws) src h = (
  omega (arith, length-take w src),
  cut-HasWidths ws (drop w src) (omega (arith, length-drop w src)),
)

pub join-cut : (ws src : List ℕ) → join (cut ws src) ≡ take (sum ws) src
join-cut [] src = refl
join-cut (w ∷ ws) src = rw (join-cut ws (drop w src)) (sym (take-add w (sum ws) src))

-- Every piece of bytes is made of bytes.
pub cut-AllBytes : (ws src : List ℕ) → All IsByte src → All (All IsByte) (cut ws src)
cut-AllBytes [] src h = tt
cut-AllBytes (w ∷ ws) src h =
    (All-take IsByte w src h, cut-AllBytes ws (drop w src) (All-drop IsByte w src h))

-- `ps`, and the bytes behind them.
abbrev pub prepend : List (List ℕ) → List ℕ → List ℕ
prepend [] rest = rest
prepend (p ∷ ps) rest = p ++ prepend ps rest

pub prepend-join : (ps : List (List ℕ)) (rest : List ℕ) → prepend ps rest ≡ join ps ++ rest
prepend-join [] rest = refl
prepend-join (p ∷ ps) rest =
    ap (λ l. p ++ l) (prepend-join ps rest) ∙ sym (append_assoc p (join ps) rest)

pub prepend-append :
    (ps : List (List ℕ)) (xs ys : List ℕ) → prepend ps (xs ++ ys) ≡ prepend ps xs ++ ys
prepend-append [] xs ys = refl
prepend-append (p ∷ ps) xs ys =
    ap (λ l. p ++ l) (prepend-append ps xs ys) ∙ sym (append_assoc p (prepend ps xs) ys)
