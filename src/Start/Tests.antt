-- ===== src/Start/Tests.antt =====
-- A server whose options are the chain id flag, over the sample's environment.
use sandbox_ledger.Base.{String, ◌≡◌, true, [], ◌∷◌, ok, returned}
use sandbox_ledger.BaseSetup.{set_chain_id}
use sandbox_ledger.ChainId.{chain_id_from_opts}
use sandbox_ledger.Mempool.{Slots}
use sandbox_ledger.Wiring.{App}
use sandbox_ledger.Wiring.Answers.{result}
use sandbox_ledger.Wiring.Complete.{new_app_eq}
use sandbox_ledger.Wiring.Sample.{pool, env, answers}
use sandbox_ledger.Start.{StartLib, start_app}

-- The options are the flag; the home directory is always given.
abbrev lib : StartLib
lib = record {
  chain = record {
    Opts = String;
    chain_id_flag = λ o. o;
    home_flag = λ _. "/home/node";
    genesis_file = λ home. home;
    chain_id_of_file = λ file. ok "sandbox-1";
  };
  env = λ _. env;
  max_gas_wanted = λ _. 7;
}

abbrev running : App × Slots pool
running = result env 7 true (set_chain_id "sandbox-1" ∷ []) (answers 7 true)

starts : start_app lib "" ≡ returned running
unfolding start_app chain_id_from_opts
starts = new_app_eq env 7 true (set_chain_id "sandbox-1" ∷ []) (answers 7 true)
