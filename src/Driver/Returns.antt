-- ===== src/Driver/Returns.antt =====
-- Rules for calls that return: with a value, an error or a panic, but never with a loop that has used
-- up its rounds.
use solarium.Base.{ℕ, Bool, true, false, Option, some, none, Outcome, ok, err, panic, spin}
use solarium.Base
use solarium.Driver.Host.{Host, Error, World}
use solarium.Driver.Monad.{
  M, ◌>>=◌, ◌>>◌, continue, pure, raise, convert, expect, expect_ok, expect_call, ask, ask_result,
}

abbrev pub Returned {ℓ κ} : {E : Type ℓ} {A : Type κ} → Outcome E A → Type 0
Returned (ok a) = Unit
Returned (err e) = Unit
Returned panic = Unit
Returned spin = ⊥

pub Returned-bind {ℓ κ μ} :
    {E : Type ℓ} {A : Type κ} {B : Type μ} (o : Outcome E A) (f : A → Outcome E B)
    → Returned o
    → ((a : A) → Returned (f a))
    → Returned (Base.◌>>=◌ o f)
Returned-bind (ok a) f r rest = rest a
Returned-bind (err e) f r rest = tt
Returned-bind panic f r rest = tt
Returned-bind spin f r rest = r

-- The same of a call whose errors and panics are unwrapped: a value or a panic.
abbrev pub Unwrapped {ℓ κ} : {E : Type ℓ} {A : Type κ} → Outcome E A → Type 0
Unwrapped (ok a) = Unit
Unwrapped (err e) = ⊥
Unwrapped panic = Unit
Unwrapped spin = ⊥

module _ (h : Host) {A : Type 0} where
  pub record Returns (call : M h A) : Type 0 where
    pub returned : (w : World h) → Returned (call w).0

  pub record Unwraps (call : M h A) : Type 0 where
    pub unwrapped : (w : World h) → Unwrapped (call w).0

  pub Returns-pure : (a : A) → Returns (pure {h = h} a)
  unfolding pure
  Returns-pure a = record { returned = λ w. tt }

  pub Returns-raise : (e : Error h) → Returns (raise {h = h} e)
  unfolding raise
  Returns-raise e = record { returned = λ w. tt }

  convert-Returned {ℓ} :
      {E : Type ℓ} (into : E → Error h) (o : Outcome E A) (w : World h)
      → Returned o
      → Returned (convert {h = h} into o w).0
  unfolding convert
  convert-Returned into (ok a) w r = tt
  convert-Returned into (err e) w r = tt
  convert-Returned into panic w r = tt
  convert-Returned into spin w r = r

  pub Returns-convert {ℓ} :
      {E : Type ℓ} (into : E → Error h) (o : Outcome E A)
      → Returned o
      → Returns (convert {h = h} into o)
  Returns-convert into o r = record { returned = λ w. convert-Returned into o w r }

  pub Returns-ask : (f : h.State → A × h.State) → Returns (ask {h = h} f)
  unfolding ask
  Returns-ask f = record { returned = λ w. tt }

  pub Returns-ask_result {ℓ} :
      {E : Type ℓ} (into : E → Error h) (f : h.State → Outcome E A × h.State)
      → ((s : h.State) → Returned (f s).0)
      → Returns (ask_result {h = h} into f)
  unfolding ask_result
  Returns-ask_result into f r = record {
    returned = λ w. convert-Returned into (f w.state).0 _ (r w.state);
  }

  pub Returns-expect : (o : Option A) → Returns (expect {h = h} o)
  unfolding expect
  Returns-expect (some a) = record { returned = λ w. tt }
  Returns-expect none = record { returned = λ w. tt }

  expect_ok-Unwrapped :
      (o : Outcome (Error h) A) (w : World h) → Returned o → Unwrapped (expect_ok {h = h} o w).0
  unfolding expect_ok
  expect_ok-Unwrapped (ok a) w r = tt
  expect_ok-Unwrapped (err e) w r = tt
  expect_ok-Unwrapped panic w r = tt
  expect_ok-Unwrapped spin w r = r

  pub Unwraps-expect_call : (call : M h A) → Returns call → Unwraps (expect_call call)
  unfolding expect_call
  Unwraps-expect_call call r = record {
    unwrapped = λ w. expect_ok-Unwrapped (call w).0 (call w).1 (r.returned w);
  }

  pub Unwraps-expect : (o : Option A) → Unwraps (expect {h = h} o)
  unfolding expect
  Unwraps-expect (some a) = record { unwrapped = λ w. tt }
  Unwraps-expect none = record { unwrapped = λ w. tt }

  pub Unwraps-pure : (a : A) → Unwraps (pure {h = h} a)
  unfolding pure
  Unwraps-pure a = record { unwrapped = λ w. tt }

module _ (h : Host) {A B : Type 0} where
  continue-Returned :
      (o : Outcome (Error h) A) (f : A → M h B) (w : World h)
      → Returned o
      → ((a : A) → Returns h (f a))
      → Returned (continue o f w).0
  unfolding continue
  continue-Returned (ok a) f w r rest = (rest a).returned w
  continue-Returned (err e) f w r rest = tt
  continue-Returned panic f w r rest = tt
  continue-Returned spin f w r rest = r

  pub Returns-bind :
      (m : M h A) (f : A → M h B) → Returns h m → ((a : A) → Returns h (f a)) → Returns h (m >>= f)
  unfolding ◌>>=◌
  Returns-bind m f first rest = record {
    returned = λ w. continue-Returned (m w).0 f (m w).1 (first.returned w) rest;
  }

  continue-Unwrapped :
      (o : Outcome (Error h) A) (f : A → M h B) (w : World h)
      → Unwrapped o
      → ((a : A) → Unwraps h (f a))
      → Unwrapped (continue o f w).0
  unfolding continue
  continue-Unwrapped (ok a) f w r rest = (rest a).unwrapped w
  continue-Unwrapped (err e) f w r rest = r
  continue-Unwrapped panic f w r rest = tt
  continue-Unwrapped spin f w r rest = r

  pub Unwraps-bind :
      (m : M h A) (f : A → M h B) → Unwraps h m → ((a : A) → Unwraps h (f a)) → Unwraps h (m >>= f)
  unfolding ◌>>=◌
  Unwraps-bind m f first rest = record {
    unwrapped = λ w. continue-Unwrapped (m w).0 f (m w).1 (first.unwrapped w) rest;
  }

pub Returns-then :
    {h : Host} {B : Type 0} (first : M h (Unit {0})) (second : M h B)
    → Returns h first
    → Returns h second
    → Returns h (first >> second)
unfolding ◌>>◌
Returns-then {h} first second r s = Returns-bind h first (λ _. second) r (λ _. s)
