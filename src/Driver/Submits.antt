-- ===== src/Driver/Submits.antt =====
-- Rules for calls that hand several transactions to the client.
pub mod Worlds
use solarium.Base.{
  ◌≡◌, refl, sym, ap, ◌∙◌, subst, List, [], ◌∷◌, ◌++◌, append_assoc, Option, some, none, Outcome,
  ok, err, panic, spin,
}
use solarium.Driver.Host.{Host, Error, Submission, World}
use solarium.Driver.Monad.{M, ◌>>=◌, continue, pure, convert, expect, expect_ok, expect_call}
use solarium.Driver.Sends.{Keeps, SentOne, Sends, Failed, nothing, handed, unconfirmed}

module _ (h : Host) {A : Type 0} (P : A → List (Submission h) → Type 0)
    (Q : List (Submission h) → Type 0) where
  -- The transactions that a call adds, last one first: as `P` tells where it succeeds, and as `Q`
  -- tells where it does not.
  abbrev pub Added : List (Submission h) → Outcome (Error h) A → World h → Type 0
  Added before (ok a) w = (ts : List (Submission h)) × w.sent ≡ ts ++ before × P a ts
  Added before _ w = (ts : List (Submission h)) × w.sent ≡ ts ++ before × Q ts

  pub record Submits (call : M h A) : Type 0 where
    pub added : (w : World h) → Added w.sent (call w).0 (call w).1

-- A call that submits nothing, with what is known of its value.
module _ (h : Host) {A : Type 0} (T : A → Type 0) where
  abbrev pub Given : List (Submission h) → Outcome (Error h) A → World h → Type 0
  Given before (ok a) w = w.sent ≡ before × T a
  Given before _ w = w.sent ≡ before

  pub record Gives (call : M h A) : Type 0 where
    pub given : (w : World h) → Given w.sent (call w).0 (call w).1

module _ (h : Host) {A B : Type 0} (T : A → Type 0) (U : B → Type 0) where
  Given-continue :
      (o : Outcome (Error h) A) (f : A → M h B) (w : World h) (before : List (Submission h))
      → Given h T before o w
      → ((a : A) → T a → Gives h U (f a))
      → Given h U before (continue o f w).0 (continue o f w).1
  unfolding continue
  Given-continue (ok a) f w before g rest =
      subst (λ b. Given h U b (f a w).0 (f a w).1) g.0 ((rest a g.1).given w)
  Given-continue (err x) f w before g rest = g
  Given-continue panic f w before g rest = g
  Given-continue spin f w before g rest = g

  pub Gives-bind :
      (m : M h A) (f : A → M h B)
      → Gives h T m
      → ((a : A) → T a → Gives h U (f a))
      → Gives h U (m >>= f)
  unfolding ◌>>=◌
  Gives-bind m f first rest = record {
    given = λ w. Given-continue (m w).0 f (m w).1 w.sent (first.given w) rest;
  }

module _ (h : Host) {A : Type 0} (T : A → Type 0) where
  pub Gives-pure : (a : A) → T a → Gives h T (pure a)
  unfolding pure
  Gives-pure a holds = record { given = λ w. (refl, holds) }

module _ (h : Host) {B : Type 0} (P : B → List (Submission h) → Type 0)
    (Q : List (Submission h) → Type 0) where
  -- What the calls behind some transactions add, seen from before these.
  pub Added-behind :
      (o : Outcome (Error h) B) (w : World h) (us between before : List (Submission h))
      → between ≡ us ++ before
      → Added h (λ b ts. P b (ts ++ us)) (λ ts. Q (ts ++ us)) between o w
      → Added h P Q before o w
  Added-behind (ok b) w us between before e x =
      (x.0 ++ us, x.1 ∙ (ap (x.0 ++◌) e ∙ sym (append_assoc x.0 us before)), x.2)
  Added-behind (err _) w us between before e x =
      (x.0 ++ us, x.1 ∙ (ap (x.0 ++◌) e ∙ sym (append_assoc x.0 us before)), x.2)
  Added-behind panic w us between before e x =
      (x.0 ++ us, x.1 ∙ (ap (x.0 ++◌) e ∙ sym (append_assoc x.0 us before)), x.2)
  Added-behind spin w us between before e x =
      (x.0 ++ us, x.1 ∙ (ap (x.0 ++◌) e ∙ sym (append_assoc x.0 us before)), x.2)

module _ (h : Host) {A B : Type 0} (P : B → List (Submission h) → Type 0)
    (Q : List (Submission h) → Type 0) where
  Keeps-Added :
      (o : Outcome (Error h) A) (f : A → M h B) (w : World h) (before : List (Submission h))
      → w.sent ≡ before
      → Q []
      → ((a : A) → Submits h P Q (f a))
      → Added h P Q before (continue o f w).0 (continue o f w).1
  unfolding continue
  Keeps-Added (ok a) f w before e q rest =
      subst (λ b. Added h P Q b (f a w).0 (f a w).1) e ((rest a).added w)
  Keeps-Added (err x) f w before e q rest = ([], e, q)
  Keeps-Added panic f w before e q rest = ([], e, q)
  Keeps-Added spin f w before e q rest = ([], e, q)

  pub Submits-keep :
      (m : M h A) (f : A → M h B)
      → Keeps h m
      → Q []
      → ((a : A) → Submits h P Q (f a))
      → Submits h P Q (m >>= f)
  unfolding ◌>>=◌
  Submits-keep m f first q rest = record {
    added = λ w. Keeps-Added (m w).0 f (m w).1 w.sent (first.sent_lem w) q rest;
  }

  pub Submits-convert {ℓ} :
      {E : Type ℓ} (into : E → Error h) (r : Outcome E A) (f : A → M h B)
      → Q []
      → ((a : A) → r ≡ ok a → Submits h P Q (f a))
      → Submits h P Q (convert into r >>= f)
  unfolding ◌>>=◌ convert continue
  Submits-convert into (ok a) f q rest = record { added = λ w. (rest a refl).added w }
  Submits-convert into (err e) f q rest = record { added = λ w. ([], refl, q) }
  Submits-convert into panic f q rest = record { added = λ w. ([], refl, q) }
  Submits-convert into spin f q rest = record { added = λ w. ([], refl, q) }

  pub Submits-expect :
      (o : Option A) (f : A → M h B)
      → Q []
      → ((a : A) → o ≡ some a → Submits h P Q (f a))
      → Submits h P Q (expect o >>= f)
  unfolding ◌>>=◌ expect continue
  Submits-expect (some a) f q rest = record { added = λ w. (rest a refl).added w }
  Submits-expect none f q rest = record { added = λ w. ([], refl, q) }

  module _ (R : A → List (Submission h) → Type 0) (S : List (Submission h) → Type 0) where
    Submits-Added :
        (o : Outcome (Error h) A) (f : A → M h B) (w : World h) (before : List (Submission h))
        → Added h R S before o w
        → ((ts : List (Submission h)) → S ts → Q ts)
        → ((a : A) (us : List (Submission h))
            → R a us
            → Submits h (λ b ts. P b (ts ++ us)) (λ ts. Q (ts ++ us)) (f a))
        → Added h P Q before (continue o f w).0 (continue o f w).1
    unfolding continue
    Submits-Added (ok a) f w before s q rest =
        Added-behind h P Q (f a w).0 (f a w).1 s.0 w.sent before s.1 ((rest a s.0 s.2).added w)
    Submits-Added (err x) f w before s q rest = (s.0, s.1, q s.0 s.2)
    Submits-Added panic f w before s q rest = (s.0, s.1, q s.0 s.2)
    Submits-Added spin f w before s q rest = (s.0, s.1, q s.0 s.2)

    pub Submits-bind :
        (m : M h A) (f : A → M h B)
        → Submits h R S m
        → ((ts : List (Submission h)) → S ts → Q ts)
        → ((a : A) (us : List (Submission h))
            → R a us
            → Submits h (λ b ts. P b (ts ++ us)) (λ ts. Q (ts ++ us)) (f a))
        → Submits h P Q (m >>= f)
    unfolding ◌>>=◌
    Submits-bind m f first q rest = record {
      added = λ w. Submits-Added (m w).0 f (m w).1 w.sent (first.added w) q rest;
    }

  module _ (T : A → Type 0) where
    Given-Added :
        (o : Outcome (Error h) A) (f : A → M h B) (w : World h) (before : List (Submission h))
        → Given h T before o w
        → Q []
        → ((a : A) → T a → Submits h P Q (f a))
        → Added h P Q before (continue o f w).0 (continue o f w).1
    unfolding continue
    Given-Added (ok a) f w before g q rest =
        subst (λ b. Added h P Q b (f a w).0 (f a w).1) g.0 ((rest a g.1).added w)
    Given-Added (err x) f w before g q rest = ([], g, q)
    Given-Added panic f w before g q rest = ([], g, q)
    Given-Added spin f w before g q rest = ([], g, q)

    pub Submits-give :
        (m : M h A) (f : A → M h B)
        → Gives h T m
        → Q []
        → ((a : A) → T a → Submits h P Q (f a))
        → Submits h P Q (m >>= f)
    unfolding ◌>>=◌
    Submits-give m f first q rest = record {
      added = λ w. Given-Added (m w).0 f (m w).1 w.sent (first.given w) q rest;
    }

  module _ (R : A → Submission h → Type 0) where
    -- A transaction that was handed to the client is counted, confirmed or not.
    pub Failed-Added :
        (w : World h) (before : List (Submission h))
        → Failed h R before w
        → Q []
        → ((t : Submission h) → Q (t ∷ []))
        → (ts : List (Submission h)) × w.sent ≡ ts ++ before × Q ts
    Failed-Added w before (nothing e) q more = ([], e, q)
    Failed-Added w before (handed a t e holds) q more =
        (unconfirmed t ∷ [], e, more (unconfirmed t))

    Sends-Added :
        (o : Outcome (Error h) A) (f : A → M h B) (w : World h) (before : List (Submission h))
        → SentOne h R before o w
        → Q []
        → ((t : Submission h) → Q (t ∷ []))
        → ((a : A) (t : Submission h)
            → R a t
            → Submits h (λ b ts. P b (ts ++ (t ∷ []))) (λ ts. Q (ts ++ (t ∷ []))) (f a))
        → Added h P Q before (continue o f w).0 (continue o f w).1
    unfolding continue
    Sends-Added (ok a) f w before s q more rest =
        Added-behind h P Q (f a w).0 (f a w).1 (s.0 ∷ []) w.sent before s.1
          ((rest a s.0 s.2).added w)
    Sends-Added (err x) f w before s q more rest = Failed-Added w before s q more
    Sends-Added panic f w before s q more rest = Failed-Added w before s q more
    Sends-Added spin f w before s q more rest = Failed-Added w before s q more

    pub Submits-send :
        (m : M h A) (f : A → M h B)
        → Sends h R m
        → Q []
        → ((t : Submission h) → Q (t ∷ []))
        → ((a : A) (t : Submission h)
            → R a t
            → Submits h (λ b ts. P b (ts ++ (t ∷ []))) (λ ts. Q (ts ++ (t ∷ []))) (f a))
        → Submits h P Q (m >>= f)
    unfolding ◌>>=◌
    Submits-send m f first q more rest = record {
      added = λ w. Sends-Added (m w).0 f (m w).1 w.sent (first.sent_lem w) q more rest;
    }

module _ (h : Host) {A : Type 0} (P : A → List (Submission h) → Type 0)
    (Q : List (Submission h) → Type 0) where
  pub Submits-pure : (a : A) → P a [] → Submits h P Q (pure a)
  unfolding pure
  Submits-pure a holds = record { added = λ w. ([], refl, holds) }

  expect_ok-Added :
      (o : Outcome (Error h) A) (w : World h) (before : List (Submission h))
      → Added h P Q before o w
      → Added h P Q before (expect_ok {h = h} o w).0 (expect_ok {h = h} o w).1
  unfolding expect_ok
  expect_ok-Added (ok a) w before s = s
  expect_ok-Added (err x) w before s = s
  expect_ok-Added panic w before s = s
  expect_ok-Added spin w before s = s

  pub expect_call-Submits : (call : M h A) → Submits h P Q call → Submits h P Q (expect_call call)
  unfolding expect_call
  expect_call-Submits call k = record {
    added = λ w. expect_ok-Added (call w).0 (call w).1 w.sent (k.added w);
  }
