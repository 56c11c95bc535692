-- ===== src/Lib.antt =====
-- A verification library for sandbox-ledger, a Cosmos SDK chain with proof of authority and an EVM.
--
-- The program is one Go package, app, and a small main. `NewApp` (app/app.go) builds the application:
-- it makes the modules' keepers one after the other, gives each the keepers that it depends on,
-- registers the modules and the order of their hooks, mounts the stores, and sets the handlers of
-- the base application. From then on the SDK calls the application: `InitChainer` with the genesis,
-- the ante handler (app/ante.go) with each transaction, the POA adapter when the EVM looks up a
-- proposer, `Close` at the end. The genesis comes from app/genesis.go, and app/export.go writes the
-- state out again.
--
-- Files, and the code that each models:
--   Base        Result and Outcome (a call that may return, panic or end the process), tests,
--               lists and int64 values.
--   Names       the names of modules and stores.
--   BaseSetup   app/app.go, the first part of NewApp: the base application, its options, the keys
--               of the stores and the runner that executes transactions in parallel.
--   Wiring      app/app.go, SandboxApp: the record App, where a keeper is described by its stores,
--               its authority and the references to other keepers that it holds. A reference
--               by value records what the field held at the time; one by address does not.
--     Keepers   NewApp's keepers, routers and modules (make_base_keepers to make_modules).
--     Handlers  the mounted stores, the hooks, setAnteHandler, setPostHandler.
--     Build     NewApp (new_app), with each call that may fail as a field of Env.
--     Accessors the accessors of the application (GetMempool stands in Mempool).
--     Answers   what NewApp needs of its calls, and what it then makes.
--     Complete, Final, Dependencies, Stores, Keys, Accounts, Settings, Routes, Serving, Boots,
--     BaseApp, Failing, Exits
--               theorems on new_app.
--   Modules     app/app.go: the modules' orders (set_module_orders) and InitChainer.
--   Blocks      app/app.go, PreBlocker, BeginBlocker and EndBlocker; Life is what a chain passes
--               through; Delivery, Fees, Replay and Refinement are a block's transactions through
--               the ante handler; Ledger is what the last compares them with.
--   Ante        app/ante.go: NewPOAEVMAnteHandler, newEVMAnteHandler, newPOACosmosAnteHandler.
--   Genesis     app/genesis.go and SandboxApp.DefaultGenesis of app/app.go.
--   Staking     app/app.go, poaStakingKeeper.
--   Accounts    app/app.go, maccPerms and BlockedAddresses.
--   Mempool     app/app.go, configureEVMMempool and Close.
--   ChainId     app/app.go, chainIDFromOpts.
--   Start       app/app.go, newApp.
--   CommandTree app/app.go, the commands of initRootCmd, queryCommand and txCommand, and the
--               functions by which they make an application.
--   Api         app/app.go, RegisterAPIRoutes, RegisterTxService, RegisterTendermintService and
--               RegisterNodeService.
--   Listeners   app/app.go, onPendingTx and RegisterPendingTxListener; Ethereum is about the
--               application that NewApp returns.
--   Root        app/app.go, PersistentPreRunE of NewRootCmd.
--   Client      app/app.go, the client context of NewRootCmd.
--   AutoCli     app/app.go, AutoCliOpts.
--   SdkConfig   cmd/sandboxd/main.go, NewRootCmd and initRootCmd of app/app.go, and
--               testutil/address_prefix.go.
--   Export      app/export.go, and appExport and LoadHeight of app/app.go.
-- Each module's theorems stand in its child modules, or in the file itself where it has none but
-- Tests; Tests holds concrete runs and the theorems at concrete inputs, Sample what several
-- Tests share.
--
-- What the code calls in cosmos-sdk, cosmos/evm, ibc-go and Go's libraries is a parameter: a record
-- whose name ends in Lib, or Env for NewApp. What a theorem needs of it is a record of laws or a
-- hypothesis that states its documented behaviour. No definition runs on fuel: the source's loops
-- are over lists and are modelled by recursion on them; the iteration over validators and the
-- modules' own hooks are calls of other packages.
--
-- Not modelled: what the codecs and registries do, the registrations of interfaces in NewApp, and
-- the values that NewApp only hands on to a keeper (the home directory, the EVM's tracer, gov's
-- configuration, the codec of account addresses). The Solidity contracts, scripts and tests are no part of the
-- application.
pub mod Base
pub mod Names
pub mod Staking
pub mod Ante
pub mod Genesis
pub mod Accounts
pub mod Mempool
pub mod ChainId
pub mod Listeners
pub mod Export
pub mod BaseSetup
pub mod Modules
pub mod Wiring
pub mod Blocks
pub mod Api
pub mod AutoCli
pub mod Client
pub mod SdkConfig
pub mod Root
pub mod Start
pub mod CommandTree
