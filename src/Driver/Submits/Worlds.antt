-- ===== src/Driver/Submits/Worlds.antt =====
-- The rules of the parent in one world: what follows a call may use in which world it ran, what it
-- returned and which world it left.
use solarium.Base.{
  ◌≡◌, refl, sym, subst, ap, ◌∙◌, List, [], ◌∷◌, ◌++◌, Outcome, ok, err, panic, spin,
}
use solarium.Driver.Host.{Host, Error, Submission, World}
use solarium.Driver.Monad.{M, ◌>>=◌, continue, expect_ok, expect_call}
use solarium.Driver.Sends.{Keeps, SentOne, Sends}
use solarium.Driver.Submits.{Added, Added-behind, Failed-Added}

module _ (h : Host) {A B : Type 0} (P : B → List (Submission h) → Type 0)
    (Q : List (Submission h) → Type 0) (w : World h) (m : M h A) (f : A → M h B)
    (empty : Q []) where
  module _ (k : Keeps h m)
      (rest : (a : A) (v : World h)
        → m w ≡ (ok a, v)
        → Added h P Q v.sent (f a v).0 (f a v).1) where
    kept : (x : Outcome (Error h) A × World h) → m w ≡ x → x.1.sent ≡ w.sent
    kept x e = ap (λ (y : Outcome (Error h) A × World h). y.1.sent) (sym e) ∙ k.sent_lem w

    keep_by :
        (x : Outcome (Error h) A × World h)
        → m w ≡ x
        → Added h P Q w.sent ((m >>= f) w).0 ((m >>= f) w).1
    unfolding ◌>>=◌ continue
    keep_by (ok a, v) e =
        rw e (subst (λ b. Added h P Q b (f a v).0 (f a v).1) (kept (ok a, v) e) (rest a v e))
    keep_by (err x, v) e = rw e ([], kept (err x, v) e, empty)
    keep_by (panic, v) e = rw e ([], kept (panic, v) e, empty)
    keep_by (spin, v) e = rw e ([], kept (spin, v) e, empty)

    pub keep_then : Added h P Q w.sent ((m >>= f) w).0 ((m >>= f) w).1
    keep_then = keep_by (m w) refl

  module _ (R : A → Submission h → Type 0) (s : Sends h R m)
      (more : (t : Submission h) → Q (t ∷ []))
      (rest : (a : A) (t : Submission h) (v : World h)
        → m w ≡ (ok a, v)
        → R a t
        → Added h
            (λ b ts. P b (ts ++ (t ∷ [])))
            (λ ts. Q (ts ++ (t ∷ [])))
            v.sent
            (f a v).0
            (f a v).1) where
    sent_by : (x : Outcome (Error h) A × World h) → m w ≡ x → SentOne h R w.sent x.0 x.1
    sent_by x e = subst (λ y. SentOne h R w.sent y.0 y.1) e (s.sent_lem w)

    send_by :
        (x : Outcome (Error h) A × World h)
        → m w ≡ x
        → Added h P Q w.sent ((m >>= f) w).0 ((m >>= f) w).1
    unfolding ◌>>=◌ continue
    send_by (ok a, v) e =
        let one = sent_by (ok a, v) e in
        rw e (
          Added-behind h P Q (f a v).0 (f a v).1 (one.0 ∷ []) v.sent w.sent one.1
            (rest a one.0 v e one.2))
    send_by (err x, v) e = rw e (Failed-Added h P Q R v w.sent (sent_by (err x, v) e) empty more)
    send_by (panic, v) e = rw e (Failed-Added h P Q R v w.sent (sent_by (panic, v) e) empty more)
    send_by (spin, v) e = rw e (Failed-Added h P Q R v w.sent (sent_by (spin, v) e) empty more)

    pub send_then : Added h P Q w.sent ((m >>= f) w).0 ((m >>= f) w).1
    send_then = send_by (m w) refl

-- An `.unwrap()` that does not panic has a call that succeeds.
module _ (h : Host) {A : Type 0} where
  expect_ok-eq-ok :
      (x : Outcome (Error h) A × World h) (a : A) (v : World h)
      → expect_ok {h = h} x.0 x.1 ≡ (ok a, v)
      → x ≡ (ok a, v)
  unfolding expect_ok
  expect_ok-eq-ok (ok b, u) a v e = e
  expect_ok-eq-ok (err x, u) a v e = cc
  expect_ok-eq-ok (panic, u) a v e = cc
  expect_ok-eq-ok (spin, u) a v e = cc

  pub expect_call-eq-ok :
      (call : M h A) (w : World h) (a : A) (v : World h)
      → expect_call call w ≡ (ok a, v)
      → call w ≡ (ok a, v)
  unfolding expect_call
  expect_call-eq-ok call w a v e = expect_ok-eq-ok (call w) a v e
