-- ===== src/Driver/Tests/Ends.antt =====
-- The ending of src/bin/create_serum_market.rs, at a concrete input.
use solarium.Base.{ℕ, zero, suc, ◌^◌, refl, arith}
use solarium.Driver.Actor.Airdrop.{Confirmed, confirmed, denied}
use solarium.Driver.Calls.{HostReturns, MachineReturns}
use solarium.Driver.Sandbox.Start.Laws.{answered}
use solarium.Driver.Serum.Calls.{DexReturns}
use solarium.Driver.CreateSerumMarket.{Rounds, default_args, main}
use solarium.Driver.CreateSerumMarket.Ending.{Enough, Ended, main-Ended}
use solarium.Driver.Tests.Small.{host, world, dex, machine, files}

abbrev long : Rounds
long = record { online = 1; airdrop = 3; vault = 2 ^ 64 }

host_returns : HostReturns host
host_returns = record {
  get_latest_blockhash = λ s. tt;
  send_and_confirm_transaction = λ t s. tt;
  request_airdrop = λ key lamports s. tt;
  get_minimum_balance_for_rent_exemption = λ bytes s. tt;
  initialize_mint = λ id mint authority freeze decimals. tt;
  initialize_account = λ id account mint owner. tt;
  mint_to = λ id mint account owner signers amount. tt;
}

machine_returns : MachineReturns host machine
machine_returns = record { tempdir = λ prefix s. tt; spawn = λ command s. tt; wait = λ child s. tt }

dex_returns : DexReturns host dex
dex_returns = record {
  initialize_market = λ m s b q bv qv x y z bs ak rq eq bl ql n t. tt;
  gen_vault_signer_key = λ nonce market serum. tt;
  init_open_orders = λ serum orders owner market authority. tt;
}

in_three : (signature : ℕ) (state : ℕ × ℕ) → Confirmed host 3 signature state
in_three signature (n, zero) = record {
  denials = 0;
  less = omega arith;
  answer = _;
  after = (n, 0);
  confirms = confirmed (n, 0) (n, 0) refl;
}
in_three signature (n, suc zero) = record {
  denials = 1;
  less = omega arith;
  answer = _;
  after = (n, 0);
  confirms = denied (n, 1) (n, 0) (n, 0) refl (confirmed (n, 0) (n, 0) refl);
}
in_three signature (n, suc (suc k)) = record {
  denials = 2;
  less = omega arith;
  answer = _;
  after = (n, 0);
  confirms =
      denied (n, suc (suc k)) (n, 1) (n, 0) refl
        (denied (n, 1) (n, 0) (n, 0) refl (confirmed (n, 0) (n, 0) refl));
}

enough : Enough host machine long
enough = record {
  online = λ state. record {
    failures = 0;
    less = omega arith;
    after = state;
    answers = answered 0 state state refl;
  };
  confirmations = in_three;
  vault = omega arith;
}

main-Ended_example :
    Ended host machine dex files long default_args world
      (main host machine dex files long default_args world).1
      (main host machine dex files long default_args world).0
main-Ended_example =
    main-Ended host machine dex files long default_args host_returns machine_returns dex_returns
      enough world
