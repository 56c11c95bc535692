-- ===== src/CommandTree/Laws.antt =====
-- The applications that the commands make.
use sandbox_ledger.Base.{String, ◌≡◌, refl, sym, ap, map, ◌∙◌, true, List, [], ◌∷◌, ◌++◌, returned}
use sandbox_ledger.BaseSetup.{BaseOption, set_up_base, set_chain_id}
use sandbox_ledger.ChainId.{chain_id_from_opts, by_sources, chain_id_from_opts-sources}
use sandbox_ledger.Mempool.{Slots}
use sandbox_ledger.Wiring.{App}
use sandbox_ledger.Wiring.Build.{new_app}
use sandbox_ledger.Wiring.Dependencies.{IsComplete, new_app-IsComplete}
use sandbox_ledger.Wiring.Serving.{new_app-Serves}
use sandbox_ledger.Wiring.BaseApp.{new_app-SetUp}
use sandbox_ledger.Start.{StartLib, start_app}
use sandbox_ledger.Start.Laws.{chain_id}
use sandbox_ledger.CommandTree.{
  AppCreator, sdk_app_creator, new_app_creator, Argument, default_start_options, app_creator, Made,
  made_by, Subcommand, made, written, root_commands, query_command, tx_command, create,
}

-- The creators among what the functions are given.
abbrev pub in_argument : Argument → List AppCreator
in_argument (app_creator c) = c ∷ []
in_argument (default_start_options c) = c ∷ []
in_argument _ = []

abbrev pub in_arguments : List Argument → List AppCreator
in_arguments [] = []
in_arguments (a ∷ rest) = in_argument a ++ in_arguments rest

abbrev pub in_commands : List Made → List (String × AppCreator)
in_commands [] = []
in_commands (made_by name given ∷ ms) = map (λ c. (name, c)) (in_arguments given) ++ in_commands ms

-- Every function of the tree that is given a creator, with the creator.
abbrev pub creators : List Subcommand → List (String × AppCreator)
creators [] = []
creators (made m ∷ cs) = in_commands (m ∷ []) ++ creators cs
creators (written cmd ∷ cs) = in_commands cmd.subcommands ++ creators cs

creators_eq :
    creators root_commands
    ≡ ("pruning.Cmd", sdk_app_creator)
      ∷ ("snapshot.Cmd", sdk_app_creator)
      ∷ ("cosmosevmserver.AddCommands", new_app_creator)
      ∷ []
unfolding root_commands query_command tx_command
creators_eq = refl

module _ (l : StartLib) where
  -- The chain id of the application that a creator makes.
  abbrev pub chain_id_of : AppCreator → l.chain.Opts → String
  chain_id_of sdk_app_creator opts = ""
  chain_id_of new_app_creator opts = by_sources l.chain opts

  -- The options for the base application by which a creator calls `NewApp`.
  abbrev pub options_of : AppCreator → l.chain.Opts → List BaseOption
  options_of sdk_app_creator opts = []
  options_of new_app_creator opts = set_chain_id (chain_id_from_opts l.chain opts) ∷ []

  create_eq :
      (c : AppCreator) (opts : l.chain.Opts)
      → create l c opts ≡ new_app (l.env opts) (l.max_gas_wanted opts) true (options_of c opts)
  unfolding create start_app
  create_eq sdk_app_creator opts = refl
  create_eq new_app_creator opts = refl

  options_of-chain_id :
      (c : AppCreator) (opts : l.chain.Opts)
      → chain_id (set_up_base (l.env opts).machine (options_of c opts)).options ""
        ≡ chain_id_of c opts
  unfolding set_up_base
  options_of-chain_id sdk_app_creator opts = refl
  options_of-chain_id new_app_creator opts = chain_id_from_opts-sources l.chain opts

  -- In the tree of commands three functions are given an `AppCreator`: those of the pruning and the
  -- snapshot commands one that sets no chain id, and that of the server's commands the one that
  -- takes it from the options: it is the flag's, if that is given, otherwise that of the genesis file
  -- below a home directory that is given, if the file can be read, and otherwise empty. Whichever
  -- creator is called for some options, the application that it returns has that chain id, has loaded the latest version, and all its keepers are complete.
  pub create-chain_id :
      (c : AppCreator) (opts : l.chain.Opts) (r : App × Slots (l.env opts).mempool)
      → create l c opts ≡ returned r
      → (creators root_commands
          ≡ ("pruning.Cmd", sdk_app_creator)
            ∷ ("snapshot.Cmd", sdk_app_creator)
            ∷ ("cosmosevmserver.AddCommands", new_app_creator)
            ∷ [])
        × (chain_id r.0.base.options "" ≡ chain_id_of c opts)
        × (r.0.loaded ≡ true)
        × IsComplete r.0
  create-chain_id c opts r h =
      let g = l.max_gas_wanted opts in
      let made = sym (create_eq c opts) ∙ h in
      let (base, _, _) = new_app-SetUp (l.env opts) g true (options_of c opts) r made in
      let (serves, _) = new_app-Serves (l.env opts) g true (options_of c opts) r made in
      (
        creators_eq,
        ap (λ b. chain_id b.options "") base ∙ options_of-chain_id c opts,
        serves.loaded,
        new_app-IsComplete (l.env opts) g true (options_of c opts) r made,
      )
