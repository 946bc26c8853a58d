-- ===== src/Driver/Serum/Sizes.antt =====
-- src/serum.rs: the sizes of a market's accounts, in `usize` of 64 bits, where an overflow panics (the
-- dev profile).
pub mod Bounds
use solarium.Base.{ℕ, ◌+◌, ◌*◌, ◌^◌, ltb, Bool, if◌then◌else◌, Outcome, ok, panic, ◌>>=◌}
use solarium.Driver.Host.{Host}
use solarium.Driver.Serum.{SerumDex}

module _ {ℓ} {E : Type ℓ} where
  -- A result that must fit a u64 or a usize.
  unfoldable pub fit : ℕ → Outcome E ℕ
  fit n = if ltb n (2 ^ 64) then ok n else panic

  abbrev pub plus : ℕ → ℕ → Outcome E ℕ
  plus size more = fit (size + more)

module _ {ℓ} {E : Type ℓ} (h : Host) (d : SerumDex h) where
  unfoldable pub request_queue_size : ℕ → Outcome E ℕ
  request_queue_size num_requests = do
    let size : ℕ = 0
    size ← plus size d.account_head_padding
    size ← plus size d.account_tail_padding
    size ← plus size d.request_queue_header
    more ← fit (num_requests * d.request)
    plus size more

  unfoldable pub event_queue_size : ℕ → Outcome E ℕ
  event_queue_size num_events = do
    let size : ℕ = 0
    size ← plus size d.account_head_padding
    size ← plus size d.account_tail_padding
    size ← plus size d.event_queue_header
    more ← fit (num_events * d.event)
    plus size more

  unfoldable pub side_size : ℕ → Outcome E ℕ
  side_size num_nodes = do
    let size : ℕ = 0
    size ← plus size d.account_head_padding
    size ← plus size d.account_tail_padding
    size ← plus size 8
    size ← plus size (8 + 8 + 4 + 4 + 8)
    more ← fit (num_nodes * d.any_node)
    plus size more

  unfoldable pub market_size : Bool → Outcome E ℕ
  market_size has_authority = do
    let size : ℕ = 0
    size ← plus size d.account_head_padding
    size ← plus size d.account_tail_padding
    if has_authority then plus size d.market_state_v2 else plus size d.market_state

  -- In `Participant::new`.
  unfoldable pub open_orders_size : Outcome E ℕ
  open_orders_size = do
    size ← plus d.open_orders d.account_head_padding
    plus size d.account_tail_padding
