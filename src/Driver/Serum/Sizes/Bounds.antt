-- ===== src/Driver/Serum/Sizes/Bounds.antt =====
-- The sizes of src/serum.rs as sums, and when they overflow.
use solarium.Base.{
  ℕ, ◌+◌, ◌*◌, ◌^◌, ◌≤◌, ◌<◌, ◌≡◌, ap, ◌∙◌, true, false, Outcome, ok, panic, ◌>>=◌, lt→ltb,
  le→ltb_false, le-cases, inl, inr, arith,
}
use solarium.Driver.Host.{Host}
use solarium.Driver.Serum.{SerumDex}
use solarium.Driver.Serum.Sizes.{
  fit, plus, request_queue_size, event_queue_size, side_size, market_size, open_orders_size,
}

module _ {ℓ} {E : Type ℓ} where
  fit_ok : (n : ℕ) → n < 2 ^ 64 → fit {E = E} n ≡ ok n
  unfolding fit
  fit_ok n h = rw (lt→ltb n (2 ^ 64) h)

  fit_panic : (n : ℕ) → 2 ^ 64 ≤ n → fit {E = E} n ≡ panic
  unfolding fit
  fit_panic n h = rw (le→ltb_false n (2 ^ 64) h)

  -- A check before an addition adds nothing to the check behind it.
  fit-plus : (n more : ℕ) → (fit {E = E} n >>= λ size. plus size more) ≡ fit (n + more)
  fit-plus n more = elim (le-cases (2 ^ 64) n) [
    | inr small ↦ rw (fit_ok n small)
    | inl large ↦ rw (fit_panic n large, fit_panic (n + more) (omega arith))
  ]

  fit-plus_then :
      {A : Type 0} (n more : ℕ) (rest : ℕ → Outcome E A)
      → (fit {E = E} n >>= λ size. plus size more >>= rest) ≡ (fit (n + more) >>= rest)
  fit-plus_then n more rest = elim (le-cases (2 ^ 64) n) [
    | inr small ↦ rw (fit_ok n small)
    | inl large ↦ rw (fit_panic n large, fit_panic (n + more) (omega arith))
  ]

  fit-plus_product :
      (n product : ℕ)
      → (fit {E = E} n >>= λ size. fit product >>= λ more. plus size more) ≡ fit (n + product)
  fit-plus_product n product = elim (le-cases (2 ^ 64) n) [
    | inl large ↦ rw (fit_panic n large, fit_panic (n + product) (omega arith))
    | inr small ↦ elim (le-cases (2 ^ 64) product) [
      | inl large ↦
          rw (fit_ok n small, fit_panic product large, fit_panic (n + product) (omega arith))
      | inr fits ↦ rw (fit_ok n small, fit_ok product fits)
    ]
  ]

abbrev pub padding : (h : Host) → SerumDex h → ℕ
padding h d = d.account_head_padding + d.account_tail_padding

module _ {ℓ} {E : Type ℓ} (h : Host) (d : SerumDex h) where
  padded :
      {A : Type 0} (rest : ℕ → Outcome E A)
      → (plus {E = E} 0 d.account_head_padding >>= λ size.
          plus size d.account_tail_padding >>= rest)
        ≡ (fit (padding h d) >>= rest)
  padded rest =
      fit-plus_then (0 + d.account_head_padding) d.account_tail_padding rest
      ∙ ap (λ (n : ℕ). fit {E = E} (n + d.account_tail_padding) >>= rest) (omega arith)

  -- Three additions and a product, each of them checked.
  counted :
      (header number each : ℕ)
      → (do
        size ← plus {E = E} 0 d.account_head_padding
        size ← plus size d.account_tail_padding
        size ← plus size header
        more ← fit (number * each)
        plus size more)
        ≡ fit (padding h d + header + number * each)
  counted header number each =
      padded (λ size. plus size header >>= λ size. fit (number * each) >>= λ more. plus size more)
      ∙ (fit-plus_then (padding h d) header (λ size. fit (number * each) >>= λ more. plus size more)
          ∙ fit-plus_product (padding h d + header) (number * each))

  -- Every size is the sum of its parts where the sum is below 2 ^ 64, and a panic where it is not: the
  -- paddings and the header (the request and the event queue), or the paddings and 40 bytes (a side of
  -- the book), with so many requests, events or nodes; the paddings and the state of a market with or
  -- without an authority; and the paddings and the open orders.
  pub sizes_lem :
      ((n : ℕ)
        → request_queue_size {E = E} h d n
          ≡ fit (padding h d + d.request_queue_header + n * d.request))
      × ((n : ℕ)
          → event_queue_size {E = E} h d n ≡ fit (padding h d + d.event_queue_header + n * d.event))
      × ((n : ℕ) → side_size {E = E} h d n ≡ fit (padding h d + 40 + n * d.any_node))
      × (market_size {E = E} h d true ≡ fit (padding h d + d.market_state_v2))
      × (market_size {E = E} h d false ≡ fit (padding h d + d.market_state))
      × (open_orders_size {E = E} h d ≡ fit (padding h d + d.open_orders))
  unfolding request_queue_size event_queue_size side_size market_size open_orders_size
  sizes_lem = (
    λ n. counted d.request_queue_header n d.request,
    λ n. counted d.event_queue_header n d.event,
    λ n. side n,
    padded (λ size. plus size d.market_state_v2) ∙ fit-plus (padding h d) d.market_state_v2,
    padded (λ size. plus size d.market_state) ∙ fit-plus (padding h d) d.market_state,
    fit-plus (d.open_orders + d.account_head_padding) d.account_tail_padding
        ∙ ap (fit {E = E}) (omega arith),
  )
    where
      side : (n : ℕ) → side_size {E = E} h d n ≡ fit (padding h d + 40 + n * d.any_node)
      side n =
          padded (λ size. plus size 8 >>= λ size.
          plus size 32 >>= λ size. fit (n * d.any_node) >>= λ more. plus size more)
          ∙ (fit-plus_then (padding h d) 8
                (λ size. plus size 32 >>= λ size. fit (n * d.any_node) >>= λ more. plus size more)
              ∙ (fit-plus_then (padding h d + 8) 32
                    (λ size. fit (n * d.any_node) >>= λ more. plus size more)
                  ∙ (fit-plus_product (padding h d + 8 + 32) (n * d.any_node)
                      ∙ ap (fit {E = E}) (omega arith))))
