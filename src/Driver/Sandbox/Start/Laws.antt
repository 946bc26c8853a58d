-- ===== src/Driver/Sandbox/Start/Laws.antt =====
-- How `Sandbox::new` in src/sandbox.rs ends.
use solarium.Base.{
  ℕ, zero, suc, ◌<◌, ◌≡◌, refl, ◌⊎◌, inl, inr, Option, some, none, Outcome, ok, err, panic, spin,
  arith,
}
use solarium.Driver.Text.{Text, text, to_string}
use solarium.Driver.Text.Laws.{to_string-injective, append-injective}
use solarium.Driver.Host.{Host, input_output_error, World}
use solarium.Driver.Monad.{◌>>=◌, ◌>>◌, continue, pure, raise, convert, expect, ask, ask_result}
use solarium.Driver.Machine.{Command, Machine}
use solarium.Driver.Sends.{Keeps, Keeps-bind, Keeps-ask, Keeps-ask_result, Keeps-expect, Keeps-pure}
use solarium.Driver.Returns.{
  Returned, Returns, Returns-bind, Returns-pure, Returns-raise, Returns-ask, Returns-ask_result,
  Returns-expect,
}
use solarium.Driver.Sandbox.Start.{
  Sandbox, available, await_online, new, url, local_url, validator_command,
}

module _ (h : Host) where
  -- `Answers n state after`: from `state` on, the client fails to get a block hash `n` times, and then
  -- gets one.
  pub data Answers : ℕ → h.State → h.State → Type 0 where
    answered :
        (hash : h.Hash) (state after : h.State)
        → h.get_latest_blockhash state ≡ (ok hash, after)
        → Answers 0 state after
    refused :
        {n : ℕ} (e : h.ClientError) (state between after : h.State)
        → h.get_latest_blockhash state ≡ (err e, between)
        → Answers n (h.sleep between) after
        → Answers (suc n) state after

module _ (h : Host) (m : Machine h) where
  await_online_lem :
      (n rounds : ℕ) (w : World h) (after : h.State)
      → n < rounds
      → Answers h n w.state after
      → await_online h m rounds w ≡ (ok tt, record w { state = after })
  unfolding await_online ◌>>=◌ ◌>>◌ continue pure convert ask
  await_online_lem n zero w after less a = absurd (omega arith)
  await_online_lem _ (suc rounds) w _ less (answered hash state after e) = rw e
  await_online_lem (suc n) (suc rounds) w _ less (refused x state between after e a) =
      rw e (await_online_lem n rounds (record w { state = h.sleep between }) after (omega arith) a)

  -- The directory is made, two ports are asked for, and what was found.
  pub record Prepared (w : World h) (port faucet : Option ℕ) : Type 0 where
    pub tmp : m.TempDir
    pub state1 : h.State
    pub state2 : h.State
    pub after : h.State
    pub tmp_lem : m.tempdir (text "solarium") w.state ≡ (ok tmp, state1)
    pub port_lem : m.pick_unused_port state1 ≡ (port, state2)
    pub faucet_lem : m.pick_unused_port state2 ≡ (faucet, after)

  -- `Sandbox::new` returns when the validator has come up: where there is a directory, there are two
  -- ports, the ledger's path is a text and the validator's process starts with that path and those
  -- ports, and the client then fails `n` times and gets an answer, every number of rounds above `n`
  -- gives the sandbox with that process and the first port; no transaction is submitted.
  pub new_lem :
      (n rounds : ℕ) (w : World h) (port faucet : ℕ) (p : Prepared w (some port) (some faucet))
      (ledger : Text) (validator : m.Child) (started online : h.State)
      → m.join p.tmp (text "solana-test-validator-ledger") ≡ some ledger
      → m.spawn (validator_command ledger port faucet) p.after ≡ (ok validator, started)
      → n < rounds
      → Answers h n started online
      → new h m rounds w ≡ (
        ok (record { tmp = p.tmp; validator = validator; port = port }),
        record w { state = online },
      )
  unfolding new ◌>>=◌ continue pure convert expect ask ask_result
  new_lem n rounds w port faucet p ledger validator started online joined spawned less a = rw (
    p.tmp_lem,
    p.port_lem,
    p.faucet_lem,
    joined,
    spawned,
    await_online_lem n rounds (record w { state = started }) online less a,
  )

  -- Where one of the two ports is missing, `Sandbox::new` returns `AddrNotAvailable`, and has started
  -- no process and submitted nothing: the world is as the search for the ports left it.
  pub new_no_port :
      (rounds : ℕ) (w : World h) (port faucet : Option ℕ) (p : Prepared w port faucet)
      → (port ≡ none) ⊎ (faucet ≡ none)
      → new h m rounds w
        ≡ (err (input_output_error m.addr_not_available), record w { state = p.after })
  unfolding new ◌>>=◌ continue pure raise convert ask ask_result
  new_no_port rounds w none faucet p missing = rw (p.tmp_lem, p.port_lem, p.faucet_lem)
  new_no_port rounds w (some port) none p missing = rw (p.tmp_lem, p.port_lem, p.faucet_lem)
  new_no_port rounds w (some port) (some faucet) p (inl e) = cc
  new_no_port rounds w (some port) (some faucet) p (inr e) = cc

  -- The urls of two sandboxes are equal only if their ports are.
  pub url-injective : (a b : Sandbox h m) → url h m a ≡ url h m b → a.port ≡ b.port
  unfolding url local_url
  url-injective a b e =
      to_string-injective a.port b.port
        (append-injective (text "http://127.0.0.1:") (to_string a.port) (to_string b.port) e)

  -- The start of a sandbox submits nothing, however it ends.
  await_online_sent :
      (rounds : ℕ) (w : World h) (answer : Outcome h.ClientError h.Hash × h.State)
      → h.get_latest_blockhash w.state ≡ answer
      → ((v : World h) → (await_online h m rounds v).1.sent ≡ v.sent)
      → (await_online h m (suc rounds) w).1.sent ≡ w.sent
  unfolding await_online ◌>>=◌ ◌>>◌ continue pure convert ask
  await_online_sent rounds w (ok hash, after) e ih = rw e
  await_online_sent rounds w (err x, after) e ih = rw e (ih (record w { state = h.sleep after }))
  await_online_sent rounds w (panic, after) e ih = rw e
  await_online_sent rounds w (spin, after) e ih = rw e

  await_online-Keeps : (rounds : ℕ) → Keeps h (await_online h m rounds)
  unfolding await_online
  await_online-Keeps zero = record { sent_lem = λ w. refl }
  await_online-Keeps (suc rounds) = record {
    sent_lem = λ w.
        await_online_sent rounds w (h.get_latest_blockhash w.state) refl
          (await_online-Keeps rounds).sent_lem;
  }

  available-Keeps : (port : Option ℕ) → Keeps h (available h m port)
  unfolding raise pure
  available-Keeps (some port) = record { sent_lem = λ w. refl }
  available-Keeps none = record { sent_lem = λ w. refl }

  pub new-Keeps : (rounds : ℕ) → Keeps h (new h m rounds)
  unfolding new
  new-Keeps rounds =
      Keeps-bind h _ _ (Keeps-ask_result h input_output_error (m.tempdir (text "solarium"))) λ tmp.
        Keeps-bind h _ _ (Keeps-ask h m.pick_unused_port) λ port.
          Keeps-bind h _ _ (Keeps-ask h m.pick_unused_port) λ faucet.
            Keeps-bind h _ _ (available-Keeps port) λ port.
              Keeps-bind h _ _ (available-Keeps faucet) λ faucet.
                Keeps-bind h _ _ (Keeps-expect h (m.join tmp (text "solana-test-validator-ledger")))
                  λ ledger.
                    Keeps-bind h _ _
                      (Keeps-ask_result h input_output_error
                        (m.spawn (validator_command ledger port faucet)))
                      λ validator.
                        Keeps-bind h _ _ (await_online-Keeps rounds) λ online. Keeps-pure h _

-- The start returns, where the client gets an answer before the rounds are used up.
module _ (h : Host) (m : Machine h) (rounds : ℕ) where
  pub record Online (state : h.State) : Type 0 where
    pub failures : ℕ
    pub less : failures < rounds
    pub after : h.State
    pub answers : Answers h failures state after

  available-Returns : (port : Option ℕ) → Returns h (available h m port)
  available-Returns (some port) = Returns-pure h port
  available-Returns none = Returns-raise h (input_output_error m.addr_not_available)

  await_online-Returns : ((state : h.State) → Online state) → Returns h (await_online h m rounds)
  await_online-Returns online = record {
    returned = λ w.
        let o = online w.state in
        rw (await_online_lem h m o.failures rounds w o.after o.less o.answers) tt;
  }

  pub new-Returns :
      ((prefix : Text) (s : h.State) → Returned (m.tempdir prefix s).0)
      → ((command : Command) (s : h.State) → Returned (m.spawn command s).0)
      → ((state : h.State) → Online state)
      → Returns h (new h m rounds)
  unfolding new
  new-Returns dirs spawns online =
      Returns-bind h _ _
        (Returns-ask_result h input_output_error (m.tempdir (text "solarium"))
          (dirs (text "solarium")))
        λ tmp. Returns-bind h _ _ (Returns-ask h m.pick_unused_port) λ port.
          Returns-bind h _ _ (Returns-ask h m.pick_unused_port) λ faucet.
            Returns-bind h _ _ (available-Returns port) λ port.
              Returns-bind h _ _ (available-Returns faucet) λ faucet.
                Returns-bind h _ _
                  (Returns-expect h (m.join tmp (text "solana-test-validator-ledger")))
                  λ ledger.
                    Returns-bind h _ _
                      (Returns-ask_result h input_output_error
                        (m.spawn (validator_command ledger port faucet))
                        (spawns (validator_command ledger port faucet)))
                      λ validator.
                        Returns-bind h _ _ (await_online-Returns online) λ done. Returns-pure h _
