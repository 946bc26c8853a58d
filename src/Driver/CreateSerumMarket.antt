-- ===== src/Driver/CreateSerumMarket.antt =====
-- src/bin/create_serum_market.rs: a command that creates a market with four participants and writes
-- its keys to a file. The parsing of the command line and what is printed are not modelled.
pub mod Listing
pub mod Crowd
pub mod Laws
pub mod Save
pub mod Ending
use solarium.Base.{
  ℕ, zero, suc, ◌*◌, ◌==◌, Bool, true, false, if◌then◌else◌, List, [], ◌∷◌, ◌++◌, length, Option,
  some, none, spin,
}
use solarium.Driver.Text.{Text, text}
use solarium.Driver.Host.{Host}
use solarium.Driver.Monad.{M, ◌>>=◌, pure, expect, expect_call, ask}
use solarium.Driver.Machine.{Machine}
use solarium.Driver.Sandbox.Start.{Sandbox, url}
use solarium.Driver.Sandbox.Start
use solarium.Driver.Actor.{Actor, airdrop}
use solarium.Driver.Actor
use solarium.Driver.Actor.Deploy.{deploy_remote}
use solarium.Driver.Token.{Mint, new_mint}
use solarium.Driver.Serum.{SerumDex}
use solarium.Driver.Serum.Market.{Market}
use solarium.Driver.Serum.Market
use solarium.Driver.Serum.Participant.{Participant}
use solarium.Driver.Serum.Participant

pub record TestMarketParticipant : Type 0 where
  pub keypair : Text
  pub base : Text
  pub quote : Text
  pub orders : Text

pub record TestMarket : Type 0 where
  pub url : Text
  pub program_id : Text
  pub market : Text
  pub bids : Text
  pub asks : Text
  pub request_queue : Text
  pub event_queue : Text
  pub base_vault : Text
  pub quote_vault : Text
  pub base_mint : Text
  pub quote_mint : Text
  pub participants : List TestMarketParticipant

abbrev pub num_participants : ℕ
num_participants = 4

pub record CliArgs : Type 0 where
  pub dex_url : Text
  pub base_decimal : ℕ
  pub quote_decimal : ℕ
  pub base_lot_size : ℕ
  pub quote_lot_size : ℕ
  pub output_file_name : Text

-- The values of the arguments that are not given.
abbrev pub default_args : CliArgs
default_args = record {
  dex_url = text "https://github.com/foonetic/solarium-deps/raw/main/serum_dex.so";
  base_decimal = 0;
  quote_decimal = 0;
  base_lot_size = 1;
  quote_lot_size = 1;
  output_file_name = text "market.json";
}

-- What the command takes from outside besides.
pub record Files (h : Host) : Type 1 where
  pub File : Type 0
  -- `fs::File::create` (`none` where it fails), `serde_json::to_writer` (whether it succeeds), and
  -- `OpenOptions::new().create(true).write(true).open(…)`
  pub create : Text → h.State → Option File × h.State
  pub to_writer : File → TestMarket → h.State → Bool × h.State
  pub open_new : Text → h.State → Option File × h.State
  -- `Pubkey::to_string`, `Keypair::to_base58_string`, `LAMPORTS_PER_SOL`
  pub key_text : h.Pubkey → Text
  pub to_base58_string : h.Keypair → Text
  pub lamports_per_sol : ℕ

-- The rounds of the three loops.
pub record Rounds : Type 0 where
  pub online : ℕ
  pub airdrop : ℕ
  pub vault : ℕ

module _ (h : Host) (f : Files h) where
  abbrev pub describe : Participant h → TestMarketParticipant
  describe p = record {
    keypair = f.to_base58_string p.account.keypair;
    base = f.key_text p.base.account.pubkey;
    quote = f.key_text p.quote.account.pubkey;
    orders = f.key_text p.open_orders.pubkey;
  }

  -- `for _ in 0..NUM_PARTICIPANTS { … participants.push(…) }`, with the rounds left
  unfoldable pub create_participants :
      SerumDex h → Rounds → Actor h → Market h → ℕ → M h (List TestMarketParticipant)
  create_participants d rounds market_creator market zero = pure []
  create_participants d rounds market_creator market (suc n) = do
    p ← expect_call (
        Participant.new h d rounds.airdrop market_creator market (10000 * f.lamports_per_sol) 100000
          100000)
    participants ← create_participants d rounds market_creator market n
    pure (describe p ∷ participants)

  -- `participants.try_into().unwrap()`: an array of the length that the type says
  abbrev pub to_array : List TestMarketParticipant → Option (List TestMarketParticipant)
  to_array participants =
      if length participants == num_participants then some participants else none

  abbrev pub test_market : Text → Actor h → Market h → List TestMarketParticipant → TestMarket
  test_market url serum_program market participants = record {
    url = url;
    program_id = f.key_text serum_program.pubkey;
    market = f.key_text market.market.pubkey;
    bids = f.key_text market.bids.pubkey;
    asks = f.key_text market.asks.pubkey;
    request_queue = f.key_text market.request_queue.pubkey;
    event_queue = f.key_text market.event_queue.pubkey;
    base_vault = f.key_text market.base_vault.account.pubkey;
    quote_vault = f.key_text market.quote_vault.account.pubkey;
    base_mint = f.key_text market.base_mint.mint.pubkey;
    quote_mint = f.key_text market.quote_mint.mint.pubkey;
    participants = participants;
  }

  -- The end of `main`: the file, and then the empty file that says that it is complete.
  unfoldable pub save : CliArgs → TestMarket → M h (Unit {0})
  save args market = do
    file ← ask (f.create args.output_file_name)
    file ← expect file
    written ← ask (f.to_writer file market)
    complete ← expect (if written then some tt else none)
    done ← ask (f.open_new (args.output_file_name ++ text ".done"))
    file ← expect done
    pure tt

module _ (h : Host) (m : Machine h) (d : SerumDex h) (f : Files h) (rounds : Rounds)
    (args : CliArgs) where
  -- `main` up to the writing of the file.
  unfoldable pub set_up : M h TestMarket
  set_up = do
    sandbox ← expect_call (Start.new h m rounds.online)
    market_creator ← expect_call (Actor.new h)
    funded ← expect_call (airdrop h rounds.airdrop market_creator (10000 * f.lamports_per_sol))
    base_mint ← expect_call (new_mint h market_creator args.base_decimal none none)
    quote_mint ← expect_call (new_mint h market_creator args.quote_decimal none none)
    serum_program ←
        expect_call (deploy_remote h m sandbox market_creator args.dex_url (text "serum_dex.so"))
    market ← expect_call (
        Market.new h d rounds.vault market_creator serum_program.pubkey base_mint quote_mint none
          args.base_lot_size args.quote_lot_size 100 128 128 256)
    participants ← create_participants h f d rounds market_creator market num_participants
    participants ← expect (to_array h f participants)
    pure (test_market h f (url h m sandbox) serum_program market participants)

  -- `main` ends in `loop {}`.
  unfoldable pub main : M h (Unit {0})
  main = do market ← set_up; saved ← save h f args market; λ w. (spin, w)
