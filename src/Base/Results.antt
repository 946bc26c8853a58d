-- ===== src/Base/Results.antt =====
-- How a call of the program ends. Rust's `Result` is `ok` or `err`; `panic` is an unwinding panic
-- (a failed `unwrap`, an index or a slice out of bounds); `spin` is no Rust value: a loop has used
-- up the rounds that the model gives it.
use mathlib.Core.Path.{◌≡◌, refl, ap, ◌∙◌}
use mathlib.Core.Option.{Option, none, some}

pub data Outcome {ℓ κ} (E : Type ℓ) (A : Type κ) : Type (ℓ ⊔ κ) where
  ok : A → Outcome E A
  err : E → Outcome E A
  panic : Outcome E A
  spin : Outcome E A

infixl 5 ◌>>=◌ ◌>>◌
abbrev pub ◌>>=◌ {ℓ κ μ} :
    {E : Type ℓ} {A : Type κ} {B : Type μ} → Outcome E A → (A → Outcome E B) → Outcome E B
ok value >>= rest = rest value
err e >>= _ = err e
panic >>= _ = panic
spin >>= _ = spin

abbrev pub ◌>>◌ {ℓ κ μ} :
    {E : Type ℓ} {A : Type κ} {B : Type μ} → Outcome E A → Outcome E B → Outcome E B
first >> second = first >>= λ _. second

-- `o.unwrap()`
abbrev pub unwrap {ℓ κ} : {E : Type ℓ} {A : Type κ} → Option A → Outcome E A
unwrap none = panic
unwrap (some a) = ok a

-- The conversion that `?` makes: `From<E> for F`.
abbrev pub map_err {ℓ κ μ} :
    {E : Type ℓ} {F : Type κ} {A : Type μ} → (E → F) → Outcome E A → Outcome F A
map_err f (ok a) = ok a
map_err f (err e) = err (f e)
map_err f panic = panic
map_err f spin = spin

-- A chain that succeeds has a first call that succeeds, and goes on from its value.
pub >>=-eq-ok {ℓ κ μ} :
    {E : Type ℓ} {A : Type κ} {B : Type μ} (call : Outcome E A) (rest : A → Outcome E B) {r : B}
    → (call >>= rest) ≡ ok r
    → (value : A) × (call ≡ ok value) × (rest value ≡ ok r)
>>=-eq-ok (ok value) rest chain = (value, refl, chain)
>>=-eq-ok (err e) rest chain = cc
>>=-eq-ok panic rest chain = cc
>>=-eq-ok spin rest chain = cc

abbrev or_ok {ℓ κ} : {E : Type ℓ} {A : Type κ} → A → Outcome E A → A
or_ok d (ok a) = a
or_ok d _ = d

pub ok-injective {ℓ κ} :
    {E : Type ℓ} {A : Type κ} (a b : A) → ◌≡◌ {A = Outcome E A} (ok a) (ok b) → a ≡ b
ok-injective a b p = ap (or_ok a) p

abbrev or_err {ℓ κ} : {E : Type ℓ} {A : Type κ} → E → Outcome E A → E
or_err d (err e) = e
or_err d _ = d

pub err-injective {ℓ κ} :
    {E : Type ℓ} {A : Type κ} (a b : E) → ◌≡◌ {A = Outcome E A} (err a) (err b) → a ≡ b
err-injective a b p = ap (or_err a) p

pub unwrap-eq-ok {ℓ κ} :
    {E : Type ℓ} {A : Type κ} (o : Option A) (a : A)
    → ◌≡◌ {A = Outcome E A} (unwrap o) (ok a)
    → o ≡ some a
unwrap-eq-ok none a p = cc
unwrap-eq-ok (some b) a p = ap some (ok-injective b a p)

-- The rest of a chain after a call that succeeds, or that panics.
pub bind-ok {ℓ κ μ} :
    {E : Type ℓ} {A : Type κ} {B : Type μ} (f : A → Outcome E B) {m : Outcome E A} {a : A}
    {r : Outcome E B}
    → m ≡ ok a
    → f a ≡ r
    → (m >>= f) ≡ r
bind-ok f p q = ap (λ m. m >>= f) p ∙ q

pub bind-panic {ℓ κ μ} :
    {E : Type ℓ} {A : Type κ} {B : Type μ} (f : A → Outcome E B) {m : Outcome E A}
    → m ≡ panic
    → (m >>= f) ≡ panic
bind-panic f p = ap (λ m. m >>= f) p

-- A call that never returns an error, though it may panic.
pub record NeverErr {ℓ κ} {E : Type ℓ} {A : Type κ} (call : Outcome E A) : Type (ℓ ⊔ κ) where
  pub never : (e : E) → call ≡ err e → ⊥

module _ {ℓ κ} {E : Type ℓ} {A : Type κ} where
  pub NeverErr-ok : (a : A) → NeverErr {E = E} (ok a)
  NeverErr-ok a = record { never = λ e h. cc }

  pub NeverErr-panic : NeverErr {E = E} {A = A} panic
  NeverErr-panic = record { never = λ e h. cc }

  pub NeverErr-unwrap : (o : Option A) → NeverErr {E = E} (unwrap o)
  NeverErr-unwrap none = NeverErr-panic
  NeverErr-unwrap (some a) = NeverErr-ok a

module _ {ℓ κ μ} {E : Type ℓ} {A : Type κ} {B : Type μ} where
  pub NeverErr-bind :
      (call : Outcome E A) (rest : A → Outcome E B)
      → NeverErr call
      → ((a : A) → NeverErr (rest a))
      → NeverErr (call >>= rest)
  NeverErr-bind (ok a) rest first later = later a
  NeverErr-bind (err e) rest first later = absurd (first.never e refl)
  NeverErr-bind panic rest first later = record { never = λ e h. cc }
  NeverErr-bind spin rest first later = record { never = λ e h. cc }

  pub NeverErr-map_err :
      (into : B → E) (call : Outcome B A) → NeverErr call → NeverErr (map_err into call)
  NeverErr-map_err into (ok a) n = record { never = λ e h. cc }
  NeverErr-map_err into (err x) n = absurd (n.never x refl)
  NeverErr-map_err into panic n = record { never = λ e h. cc }
  NeverErr-map_err into spin n = record { never = λ e h. cc }

  -- A chain that ends in an error, and whose first call never does.
  pub >>=-eq-err :
      (call : Outcome E A) (rest : A → Outcome E B) {e : E}
      → NeverErr call
      → (call >>= rest) ≡ err e
      → (value : A) × (rest value ≡ err e)
  >>=-eq-err (ok value) rest n chain = (value, chain)
  >>=-eq-err (err x) rest n chain = absurd (n.never x refl)
  >>=-eq-err panic rest n chain = cc
  >>=-eq-err spin rest n chain = cc
