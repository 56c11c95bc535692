-- ===== src/Wiring/Dependencies.antt =====
-- The keepers, modules, precompiles and handlers of a finished application are given nothing that is
-- missing.
use sandbox_ledger.Base.{ℕ, ◌≡◌, Bool, Option, none, some, List, [], ◌∷◌, returned, arith}
use sandbox_ledger.Base.Lists.{All}
use sandbox_ledger.Names.{
  ModuleName, auth, bank, consensus, gov, upgrade, poa, ibc, transfer, gmp, evm, feemarket, erc20,
  tokenfactory, ift,
}
use sandbox_ledger.BaseSetup.{BaseOption}
use sandbox_ledger.Mempool.{Slots}
use sandbox_ledger.Ante.{HandlerOptions}
use sandbox_ledger.Wiring.{
  App, Keeper, Ref, sign_modes, TxConfig, of_encoding, with_textual, value, address,
  staking_adapter, no_staking_keeper, callable, keeper_of, Precompile, ics02, bank_precompile,
  gov_precompile, IbcModule, transfer_v2, erc20_v2, gmp_module, callbacks_v2,
}
use sandbox_ledger.Wiring.Keepers.{make_keepers}
use sandbox_ledger.Wiring.Handlers.{mount_stores, set_hooks, ante_handler_options}
use sandbox_ledger.Wiring.Build.{set_configurator, Env, new_app, set_orders}
use sandbox_ledger.Wiring.Final.{new_app-all}

-- The modules that have a keeper.
abbrev pub with_keeper : List ModuleName
with_keeper =
    auth ∷ bank ∷ consensus ∷ gov ∷ upgrade ∷ poa ∷ ibc ∷ transfer ∷ gmp ∷ evm ∷ feemarket ∷ erc20
    ∷ tokenfactory ∷ ift ∷ []

abbrev pub IsPresent {ℓ} : {A : Type ℓ} → Option A → Type 0
IsPresent none = ⊥
IsPresent (some _) = Unit

-- The bank that the textual sign mode reads has its object store.
abbrev pub TxConfigIsUsable : TxConfig → Type 0
TxConfigIsUsable of_encoding = Unit
TxConfigIsUsable (with_textual none) = ⊥
TxConfigIsUsable (with_textual (some object_store)) = IsPresent object_store

-- A captured keeper is not nil, and the bank's is not one without its object store; what an address
-- points to is there in the end.
abbrev pub IsUsable : App → Ref → Type 0
IsUsable app (value bank none) = ⊥
IsUsable app (value bank (some object_store)) = IsPresent object_store
IsUsable app (value m captured) = IsPresent captured
IsUsable app (address m) = IsPresent (keeper_of m app)
IsUsable app (staking_adapter captured) = IsPresent captured
IsUsable app no_staking_keeper = Unit
IsUsable app (sign_modes c) = TxConfigIsUsable c
IsUsable app (callable name) = Unit

abbrev pub KeeperIsComplete : App → Option Keeper → Type 0
KeeperIsComplete app none = ⊥
KeeperIsComplete app (some k) = All (IsUsable app) k.deps

abbrev pub PrecompileIsUsable : App → Precompile → Type 0
PrecompileIsUsable app (ics02 r) = IsUsable app r
PrecompileIsUsable app (bank_precompile r s) = IsUsable app r × IsUsable app s
PrecompileIsUsable app (gov_precompile r s) = IsUsable app r × IsUsable app s
PrecompileIsUsable app _ = Unit

abbrev pub StackIsUsable : App → IbcModule → Type 0
StackIsUsable app (transfer_v2 r) = IsUsable app r
StackIsUsable app (erc20_v2 m r) = StackIsUsable app m × IsUsable app r
StackIsUsable app (gmp_module r) = IsUsable app r
StackIsUsable app (callbacks_v2 m r s t limit) =
    StackIsUsable app m × IsUsable app r × IsUsable app s × IsUsable app t

abbrev pub OptionIsUsable : App → Option Ref → Type 0
OptionIsUsable app none = ⊥
OptionIsUsable app (some r) = IsUsable app r

-- All that the ante handler's two chains use but for the fee grants, which the chain has not.
abbrev pub OptionsAreUsable : App → Option (HandlerOptions Ref) → Type 0
OptionsAreUsable app none = ⊥
OptionsAreUsable app (some o) = All (OptionIsUsable app) (
    o.cdc ∷ o.account_keeper ∷ o.bank_keeper ∷ o.ibc_keeper ∷ o.fee_market_keeper ∷ o.evm_keeper
    ∷ o.extension_option_checker ∷ o.sign_mode_handler ∷ o.sig_gas_consumer ∷ o.pending_tx_listener
    ∷ [])

abbrev pub IsComplete : App → Type 0
IsComplete app =
    All (λ m. KeeperIsComplete app (keeper_of m app)) with_keeper
    × All (IsUsable app) app.gov_hooks
    × All (PrecompileIsUsable app) app.static_precompiles
    × All (λ (_, stack). StackIsUsable app stack) app.router_v2
    × All (λ (_, refs). All (IsUsable app) refs) app.modules
    × TxConfigIsUsable app.tx_config
    × OptionIsUsable app app.param_store
    × OptionsAreUsable app app.ante_options

-- In the application that `NewApp` returns every keeper is there, and neither a keeper nor a hook,
-- a precompile, an IBC stack, a module, the transaction configuration or the ante handler holds a copy of a keeper from before
-- that keeper was made, a bank keeper from before it got its object store, or a pointer to a keeper
-- that stays unset. The nil that the source passes to gov for its staking keeper is left aside.
pub new_app-IsComplete :
    (e : Env) (g : ℕ) (load_latest : Bool) (opts : List BaseOption) (r : App × Slots e.mempool)
    → new_app e g load_latest opts ≡ returned r
    → IsComplete r.0
unfolding make_keepers mount_stores set_hooks set_configurator set_orders ante_handler_options
new_app-IsComplete = new_app-all (λ _ _ _ _. IsComplete) (λ e opts g orders b printed. ground arith)
