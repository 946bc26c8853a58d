-- ===== src/Driver/Tests/Small.antt =====
-- A small host and a small serum_dex, in which keys are numbers and calls succeed.
use solarium.Driver.Text.{Text, text, to_string}
use solarium.Driver.Machine.{Command, Machine}
use solarium.Driver.CreateSerumMarket.{Files}
use solarium.Base.{
  ℕ, zero, suc, ◌+◌, List, [], ◌∷◌, ◌++◌, length, Bool, true, false, some, none, Option, Outcome,
  ok, ltb, if◌then◌else◌,
}
use solarium.Solana.{Instruction}
use solarium.Driver.Host.{Host, World}
use solarium.Driver.Actor.{Actor}
use solarium.Driver.Token.{Mint, TokenAccount}
use solarium.Driver.Serum.{SerumDex}
use solarium.Driver.Serum.Market.{Market}
use solarium.Driver.Serum.Market
use solarium.Driver.Serum.Participant.{Participant}
use solarium.Pyth.Tests.{solana}

-- The instruction of program 8 with these accounts and this payload.
abbrev pub plain : List ℕ → List ℕ → Instruction solana
plain keys payload = record { program_id = 8; accounts = metas keys; payload = payload }
  where
    metas : List ℕ → List (ℕ × Bool × Bool)
    metas [] = []
    metas (k ∷ ks) = (k, false, true) ∷ metas ks

-- The state counts the keys that were made, and the answers that are still denied, of which there are
-- two at most.
abbrev pub host : Host
host = record {
  solana = solana;
  State = ℕ × ℕ;
  Keypair = ℕ;
  Keyfile = ℕ;
  Hash = ℕ;
  Signature = ℕ;
  Transaction = List (Instruction solana);
  ClientError = ℕ;
  IoError = ℕ;
  DexError = ℕ;
  Account = ℕ;
  TokenState = List ℕ;
  not_found = 1;
  keypair_new = λ s. (s.0, (s.0 + 1, s.1));
  pubkey_of = λ k. 100 + k;
  tempfile = λ s. (some 0, s);
  write_keypair_file = λ k f s. (true, s);
  flush = λ f s. (true, s);
  sleep = λ s. s;
  new_signed_with_payer = λ is p ks hash. some is;
  new_with_payer = λ is p. is;
  get_latest_blockhash = λ s. (ok 0, s);
  send_and_confirm_transaction = λ t s. (ok 0, s);
  request_airdrop = λ key lamports s. (ok 7, s);
  confirm_transaction = λ signature s. confirm s;
  get_minimum_balance_for_rent_exemption = λ bytes s. (ok (bytes + 128), s);
  get_account = λ key s. (ok key, s);
  get_account_data = λ key s. (ok (key ∷ []), s);
  system_create_account =
      λ payer key rent bytes owner. plain (payer ∷ key ∷ owner ∷ []) (rent ∷ bytes ∷ []);
  token_id = 50;
  mint_len = 82;
  account_len = 165;
  unpack_token_state = λ bytes. ok bytes;
  initialize_mint =
      λ id mint authority freeze decimals. ok (plain (mint ∷ authority ∷ []) (decimals ∷ []));
  initialize_account = λ id account mint owner. ok (plain (account ∷ mint ∷ owner ∷ []) []);
  mint_to = λ id mint account owner signers amount.
      ok (plain (mint ∷ account ∷ owner ∷ []) (amount ∷ []));
}
  where
    confirm : ℕ × ℕ → Outcome ℕ Bool × (ℕ × ℕ)
    confirm (n, zero) = (ok true, (n, zero))
    confirm (n, suc zero) = (ok false, (n, 0))
    confirm (n, suc (suc k)) = (ok false, (n, 1))

abbrev pub world : World host
world = record { state = (3, 2); sent = [] }

abbrev pub alice : Actor host
alice = record { keypair = 1; keyfile = 0; pubkey = 101 }

abbrev pub bob : Actor host
bob = record { keypair = 2; keyfile = 0; pubkey = 102 }

abbrev pub gold : Mint host
gold = record { mint = bob; authority = alice; freeze_authority = alice }

abbrev pub purse : TokenAccount host
purse = record { account = bob }

-- A key has an address under every nonce from 3 on.
abbrev pub from_three : List (List ℕ) → ℕ → Option ℕ
from_three (key ∷ (nonce ∷ _) ∷ []) program = if ltb nonce 3 then none else some (200 + nonce)
from_three _ program = none

abbrev pub dex : SerumDex host
dex = record {
  Side = Bool;
  OrderType = Bool;
  SelfTradeBehavior = Bool;
  request_queue_empty = 11;
  event_queue_too_small = 12;
  slab_too_small = 13;
  account_head_padding = 5;
  account_tail_padding = 7;
  request_queue_header = 32;
  request = 80;
  event_queue_header = 32;
  event = 88;
  any_node = 72;
  market_state_v2 = 452;
  market_state = 376;
  open_orders = 3216;
  as_ref = λ key. key ∷ [];
  create_program_address = from_three;
  rent_id = 60;
  gen_vault_signer_key = λ nonce market serum. ok (200 + nonce);
  initialize_market = λ m s b q bv qv a c p bs ak rq eq bl ql n t.
      ok (plain (m ∷ b ∷ q ∷ bv ∷ qv ∷ []) (bl ∷ ql ∷ n ∷ t ∷ []));
  new_order = λ m o rq eq bs ak p a bv qv t r x s sd lp q ty id stb l mx.
      ok (plain (m ∷ o ∷ p ∷ a ∷ []) (lp ∷ q ∷ id ∷ []));
  consume_events = λ s os m eq bv qv n. ok (plain (m ∷ eq ∷ os) (n ∷ []));
  settle_funds = λ s m t o a bv b qv q r v. ok (plain (m ∷ o ∷ a ∷ b ∷ q ∷ v ∷ []) []);
  cancel_order = λ s m bs ak o a eq sd id. ok (plain (m ∷ o ∷ a ∷ []) (id ∷ []));
  init_open_orders = λ s o a m r. ok (plain (o ∷ a ∷ m ∷ []) []);
}

abbrev pub fair : Market.Market host
fair = record {
  serum = 20;
  market = bob;
  authority = none;
  request_queue = bob;
  event_queue = bob;
  bids = bob;
  asks = bob;
  base_vault = purse;
  quote_vault = purse;
  vault_signer_key = 203;
  base_mint = gold;
  quote_mint = gold;
  open_orders_accounts = [];
}

abbrev pub trader : Participant host
trader = record { market = fair; base = purse; quote = purse; open_orders = bob; account = alice }

-- A machine on which every process starts and succeeds; its paths and directories are texts.
abbrev pub machine : Machine host
machine = record {
  FilePath = Text;
  TempDir = Text;
  Child = Command;
  addr_not_available = 2;
  invalid_input = 3;
  keyfile_path = λ keyfile. to_string keyfile;
  to_str = λ path. some path;
  exists = λ path s. (true, s);
  tempdir = λ prefix s. (ok (text "/tmp/"), s);
  join = λ tmp name. some (tmp ++ name);
  pick_unused_port = λ s. (some (9000 + s.0), (s.0 + 1, s.1));
  spawn = λ command s. (ok command, s);
  wait = λ child s. (ok true, s);
  kill = λ child s. (true, s);
}

-- The same with a `wget` that fails, and without ports.
abbrev pub broken : Machine host
broken = record machine {
  wait = λ child s. (ok (ltb 3 (length child.args)), s);
  pick_unused_port = λ s. (none, s);
}

abbrev pub files : Files host
files = record {
  File = Text;
  create = λ name s. (some name, s);
  to_writer = λ file market s. (true, s);
  open_new = λ name s. (some name, s);
  key_text = to_string;
  to_base58_string = to_string;
  lamports_per_sol = 1_000_000_000;
}
