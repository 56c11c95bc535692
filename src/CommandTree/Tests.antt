-- ===== src/CommandTree/Tests.antt =====
-- The creators of the sample server.
use sandbox_ledger.Base.{String, ◌≡◌, true, [], ◌∷◌, returned, ok}
use sandbox_ledger.Mempool.{Slots}
use sandbox_ledger.BaseSetup.{set_chain_id}
use sandbox_ledger.ChainId.{chain_id_from_opts}
use sandbox_ledger.Start.{start_app}
use sandbox_ledger.Wiring.{App}
use sandbox_ledger.Wiring.Answers.{result}
use sandbox_ledger.Wiring.Complete.{new_app_eq}
use sandbox_ledger.Wiring.Dependencies.{IsComplete}
use sandbox_ledger.Wiring.Sample.{pool, env, answers}
use sandbox_ledger.Start.{StartLib}
use sandbox_ledger.Start.Laws.{chain_id}
use sandbox_ledger.CommandTree.{sdk_app_creator, new_app_creator, root_commands, create}
use sandbox_ledger.CommandTree.Laws.{creators, create-chain_id}

-- A server whose options are its chain id flag.
abbrev server : StartLib
server = record {
  chain = record {
    Opts = String;
    chain_id_flag = λ o. o;
    home_flag = λ _. "";
    genesis_file = λ home. home;
    chain_id_of_file = λ file. ok file;
  };
  env = λ _. env;
  max_gas_wanted = λ _. 0;
}

abbrev served : App × Slots pool
served = result env 0 true (set_chain_id "sandbox-7" ∷ []) (answers 0 true)

serves : create server new_app_creator "sandbox-7" ≡ returned served
unfolding create start_app chain_id_from_opts
serves = new_app_eq env 0 true (set_chain_id "sandbox-7" ∷ []) (answers 0 true)

create-chain_id_example :
    (creators root_commands
      ≡ ("pruning.Cmd", sdk_app_creator)
        ∷ ("snapshot.Cmd", sdk_app_creator)
        ∷ ("cosmosevmserver.AddCommands", new_app_creator)
        ∷ [])
    × (chain_id served.0.base.options "" ≡ "sandbox-7")
    × (served.0.loaded ≡ true)
    × IsComplete served.0
create-chain_id_example = create-chain_id server new_app_creator "sandbox-7" served serves
