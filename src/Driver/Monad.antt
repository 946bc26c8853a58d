-- ===== src/Driver/Monad.antt =====
-- Calls of the driver: they end as an `Outcome` and leave a world, also where they fail.
use solarium.Base.{Outcome, ok, err, panic, spin, Option, none, some}
use solarium.Driver.Host.{Host, Error, World}

abbrev pub M : Host → Type 0 → Type 0
M h A = World h → Outcome (Error h) A × World h

unfoldable pub continue : {h : Host} {A B : Type 0} → Outcome (Error h) A → (A → M h B) → M h B
continue (ok a) f w = f a w
continue (err e) f w = (err e, w)
continue panic f w = (panic, w)
continue spin f w = (spin, w)

infixl 5 ◌>>=◌ ◌>>◌
unfoldable pub ◌>>=◌ : {h : Host} {A B : Type 0} → M h A → (A → M h B) → M h B
unfolding continue
◌>>=◌ call rest w = continue (call w).0 rest (call w).1

unfoldable pub ◌>>◌ : {h : Host} {B : Type 0} → M h (Unit {0}) → M h B → M h B
first >> second = first >>= λ _. second

unfoldable pub pure : {h : Host} {A : Type 0} → A → M h A
pure a w = (ok a, w)

unfoldable pub raise : {h : Host} {A : Type 0} → Error h → M h A
raise e w = (err e, w)

-- A result that is at hand, with the conversion of its error that `?` makes.
unfoldable pub convert {ℓ} :
    {h : Host} {A : Type 0} {E : Type ℓ} → (E → Error h) → Outcome E A → M h A
convert into (ok a) w = (ok a, w)
convert into (err e) w = (err (into e), w)
convert into panic w = (panic, w)
convert into spin w = (spin, w)

-- `.unwrap()` and `.expect(…)`
unfoldable pub expect : {h : Host} {A : Type 0} → Option A → M h A
expect (some a) w = (ok a, w)
expect none w = (panic, w)

unfoldable pub expect_ok {ℓ} : {h : Host} {A : Type 0} {E : Type ℓ} → Outcome E A → M h A
expect_ok (ok a) w = (ok a, w)
expect_ok (err e) w = (panic, w)
expect_ok panic w = (panic, w)
expect_ok spin w = (spin, w)

-- A call of something outside, which cannot fail, or fails with an error of its own.
unfoldable pub ask : {h : Host} {A : Type 0} → (h.State → A × h.State) → M h A
ask {h} f w = (ok (f w.state).0, record w { state = (f w.state).1 })

unfoldable pub ask_result {ℓ} :
    {h : Host} {A : Type 0} {E : Type ℓ} → (E → Error h) → (h.State → Outcome E A × h.State) → M h A
unfolding convert
ask_result {h} into f w = convert into (f w.state).0 (record w { state = (f w.state).1 })

-- `.unwrap()` of what a call returns
unfoldable pub expect_call : {h : Host} {A : Type 0} → M h A → M h A
unfolding expect_ok
expect_call call w = expect_ok (call w).0 (call w).1
