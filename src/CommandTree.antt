-- ===== src/CommandTree.antt =====
-- app/app.go, `initRootCmd`, `queryCommand` and `txCommand`: the tree of commands, and the functions
-- by which its commands make an application. A command of another package stands as the function
-- that makes it, with what that function is given.
pub mod Laws
mod Tests
use sandbox_ledger.Base.{
  ℕ, String, Bool, true, false, Option, none, some, List, [], ◌∷◌, ◌++◌, Outcome,
}
use sandbox_ledger.Mempool.{Slots}
use sandbox_ledger.Wiring.{App}
use sandbox_ledger.Wiring.Build.{Env, new_app}
use sandbox_ledger.Start.{StartLib, start_app}

-- The two functions of the type `AppCreator`: `sdkAppCreator` of `initRootCmd`, and `newApp`.
pub data AppCreator : Type 0 where
  sdk_app_creator new_app_creator : AppCreator

-- What the functions of other packages are given.
pub data Argument : Type 0 where
  basic_module_manager tx_config default_node_home root_command : Argument
  -- `NewDefaultStartOptions` of a creator
  default_start_options : AppCreator → Argument
  app_creator : AppCreator → Argument
  app_export no_init_flags : Argument
  flag : Bool → Argument

-- `made_by` one function, or several commands by `AddCommands` of the server.
pub data Made : Type 0 where
  made_by : String → List Argument → Made

-- The constants of package flags.
pub data FlagName : Type 0 where
  flag_chain_id : FlagName

-- A `cobra.Command` that the source writes out.
pub record CobraCommand : Type 0 where
  pub use_name : String
  pub aliases : List String
  pub short : String
  pub disable_flag_parsing : Bool
  pub suggestions_minimum_distance : ℕ
  pub run_e : Option String
  pub subcommands : List Made
  -- name, default value and usage
  pub persistent_flags : List (FlagName × String × String)

pub data Subcommand : Type 0 where
  made : Made → Subcommand
  written : CobraCommand → Subcommand

-- `AddCommand`
abbrev pub add_command : CobraCommand → List Made → CobraCommand
add_command cmd commands = record cmd { subcommands = cmd.subcommands ++ commands }

-- `cmd.PersistentFlags().String(flags.FlagChainID, …)`
abbrev pub add_chain_id_flag : CobraCommand → CobraCommand
add_chain_id_flag cmd = record cmd {
  persistent_flags = cmd.persistent_flags ++ (flag_chain_id, "", "The network chain ID") ∷ [];
}

-- `queryCommand`
unfoldable pub query_command : CobraCommand
query_command =
    let cmd : CobraCommand = record {
      use_name = "query";
      aliases = "q" ∷ [];
      short = "Querying subcommands";
      disable_flag_parsing = false;
      suggestions_minimum_distance = 2;
      run_e = some "client.ValidateCmd";
      subcommands = [];
      persistent_flags = [];
    } in
    add_chain_id_flag (
      add_command cmd (
        made_by "rpc.QueryEventForTxCmd" []
        ∷ made_by "rpc.ValidatorCommand" []
        ∷ made_by "authcmd.QueryTxsByEventsCmd" []
        ∷ made_by "authcmd.QueryTxCmd" []
        ∷ made_by "sdkserver.QueryBlockCmd" []
        ∷ made_by "sdkserver.QueryBlockResultsCmd" []
        ∷ []))

-- `txCommand`
unfoldable pub tx_command : CobraCommand
tx_command =
    let cmd : CobraCommand = record {
      use_name = "tx";
      aliases = [];
      short = "Transactions subcommands";
      disable_flag_parsing = false;
      suggestions_minimum_distance = 2;
      run_e = some "client.ValidateCmd";
      subcommands = [];
      persistent_flags = [];
    } in
    add_chain_id_flag (
      add_command cmd (
        made_by "authcmd.GetSignCommand" []
        ∷ made_by "authcmd.GetSignBatchCommand" []
        ∷ made_by "authcmd.GetMultiSignCommand" []
        ∷ made_by "authcmd.GetMultiSignBatchCmd" []
        ∷ made_by "authcmd.GetValidateSignaturesCommand" []
        ∷ made_by "authcmd.GetBroadcastCommand" []
        ∷ made_by "authcmd.GetEncodeCommand" []
        ∷ made_by "authcmd.GetDecodeCommand" []
        ∷ made_by "authcmd.GetSimulateCmd" []
        ∷ []))

-- The three calls of `initRootCmd` that add commands to the root command.
unfoldable pub root_commands : List Subcommand
root_commands =
    (made (made_by "genutilcli.InitCmd" (basic_module_manager ∷ default_node_home ∷ []))
      ∷ made (
          made_by "genutilcli.Commands" (tx_config ∷ basic_module_manager ∷ default_node_home ∷ []))
      ∷ made (made_by "cmtcli.NewCompletionCmd" (root_command ∷ flag true ∷ []))
      ∷ made (made_by "evmdebug.Cmd" [])
      ∷ made (made_by "confixcmd.ConfigCommand" [])
      ∷ made (made_by "pruning.Cmd" (app_creator sdk_app_creator ∷ default_node_home ∷ []))
      ∷ made (made_by "snapshot.Cmd" (app_creator sdk_app_creator ∷ []))
      ∷ [])
    ++ made (
        made_by "cosmosevmserver.AddCommands" (
          root_command
          ∷ default_start_options new_app_creator
          ∷ default_node_home
          ∷ app_export
          ∷ no_init_flags
          ∷ []))
      ∷ []
    ++ made (made_by "cosmosevmcmd.KeyCommands" (default_node_home ∷ flag true ∷ []))
      ∷ made (made_by "sdkserver.StatusCommand" [])
      ∷ written query_command
      ∷ written tx_command
      ∷ []

module _ (l : StartLib) where
  -- The application that a creator makes for a command's options.
  unfoldable pub create :
      AppCreator → (opts : l.chain.Opts) → Outcome (App × Slots (l.env opts).mempool)
  create sdk_app_creator opts = new_app (l.env opts) (l.max_gas_wanted opts) true []
  create new_app_creator opts = start_app l opts
