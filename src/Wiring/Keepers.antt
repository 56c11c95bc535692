-- ===== src/Wiring/Keepers.antt =====
-- The keepers of `NewApp`, in the order in which it makes them.
use sandbox_ledger.Base.Int.{ℤ, eq_int}
use sandbox_ledger.Base.{Bool, false, if◌then◌else◌, ℕ, true, none, some, List, [], ◌∷◌, ◌++◌}
use sandbox_ledger.Names.{
  ModuleName, genutil, auth, bank, consensus, gov, upgrade, poa, ibc, transfer, gmp, attestations,
  evm, feemarket, erc20, tokenfactory, ift, kv, object, transient, StoreKey,
}
use sandbox_ledger.Accounts.{macc_perms, blocked_addresses}
use sandbox_ledger.Wiring.{
  App, Keeper, Ref, with_textual, address, no_staking_keeper, staking_adapter, callable, by_value,
  capture, Precompile, prague, p256, bech32, ics02, bank_precompile, gov_precompile, transfer_v2,
  erc20_v2, gmp_module, callbacks_v2, module_name, port_id,
}

-- A keeper over the key-value store of its module, with gov's address for its authority.
abbrev governed : ModuleName → List Ref → Keeper
governed m deps = record {
  stores = kv m ∷ [];
  object_store = none;
  authority = some gov;
  deps = deps;
}

-- From the consensus parameters to the bank.
unfoldable pub make_base_keepers : App → App
make_base_keepers app =
    let app = record app { consensus_params_keeper = some (governed consensus []) } in
    let app = record app { param_store = some (by_value consensus app) } in
    let app = record app { account_keeper = some (governed auth []); account_perms = macc_perms } in
    let plain_bank = governed bank (by_value auth app ∷ []) in
    let app = record app { blocked_addrs = blocked_addresses } in
    record app { bank_keeper = some (record plain_bank { object_store = some (object bank) }) }

-- `app.txConfig`, given that `NewTxConfigWithOptions` has made it.
unfoldable pub set_tx_config : App → App
set_tx_config app = record app { tx_config = with_textual (capture app.bank_keeper) }

-- The loop that makes `skipUpgradeHeights`; to `int64` an `int` is itself.
unfoldable pub skip_heights : List ℤ → (ℤ → Bool) → ℤ → Bool
skip_heights [] skipped = skipped
skip_heights (h ∷ heights) skipped =
    skip_heights heights (λ height. if eq_int h height then true else skipped height)

-- POA, gov with its hooks, upgrade, and the core of IBC, given the heights to skip.
unfoldable pub make_chain_keepers : List ℤ → App → App
make_chain_keepers unsafe_skip_upgrades app =
    let poa_keeper : Keeper = record {
      stores = kv poa ∷ transient poa ∷ [];
      object_store = none;
      authority = none;
      deps = by_value auth app ∷ by_value bank app ∷ [];
    } in
    let app = record app { poa_keeper = some poa_keeper } in
    let gov_deps =
      by_value auth app
      ∷ by_value bank app
      ∷ no_staking_keeper
      ∷ callable "MsgServiceRouter"
      ∷ by_value poa app
      ∷ [] in
    let app = record app { gov_keeper = some (governed gov gov_deps) } in
    let app = record app { gov_hooks = by_value poa app ∷ [] } in
    let app = record app {
      skip_upgrade_heights = some (skip_heights unsafe_skip_upgrades (λ _. false));
      upgrade_keeper = some (governed upgrade (callable "BaseApp" ∷ []));
    } in
    record app { ibc_keeper = some (governed ibc (by_value upgrade app ∷ [])) }

-- The precompiles that the EVM keeper is given.
abbrev precompiles_of : App → List Precompile
precompiles_of app =
    prague
    ∷ p256
    ∷ bech32
    ∷ ics02 (by_value ibc app)
    ∷ bank_precompile (by_value bank app) (address erc20)
    ∷ gov_precompile (by_value gov app) (by_value bank app)
    ∷ []

-- The fee market, IBC transfer, the EVM and ERC-20, given `nonTransientKeys` and the chain id.
unfoldable pub make_evm_keepers : List StoreKey → ℕ → App → App
make_evm_keepers non_transient_keys evm_chain_id app =
    let app = record app { fee_market_keeper = some (governed feemarket []) } in
    let transfer_deps =
      by_value ibc app ∷ callable "MsgServiceRouter" ∷ by_value auth app ∷ by_value bank app ∷ [] in
    let app = record app { transfer_keeper = some (governed transfer transfer_deps) } in
    let adapter = staking_adapter (capture app.poa_keeper) in
    let evm_keeper : Keeper = record {
      stores = kv evm ∷ object evm ∷ [];
      object_store = none;
      authority = some gov;
      deps =
          by_value auth app
          ∷ by_value bank app
          ∷ adapter
          ∷ by_value feemarket app
          ∷ address consensus
          ∷ address erc20
          ∷ [];
    } in
    let app = record app {
      static_precompiles = precompiles_of app;
      evm_keeper = some evm_keeper;
      evm_store_keys = non_transient_keys;
      evm_chain_id = some evm_chain_id;
      virtual_fee_collection = true;
    } in
    let erc20_deps =
      by_value auth app
      ∷ by_value bank app
      ∷ by_value evm app
      ∷ adapter
      ∷ by_value transfer app
      ∷ [] in
    record app { erc20_keeper = some (governed erc20 erc20_deps) }

-- The limit of gas for the callbacks of an IBC packet, `maxCallbackGas`.
abbrev pub max_callback_gas : ℕ
max_callback_gas = 1000000

-- The transfer stack and its route, the GMP keeper, the routers and the light client.
unfoldable pub make_ibc_stack : App → App
make_ibc_stack app =
    let transfer_stack_v2 = erc20_v2 (transfer_v2 (by_value transfer app)) (by_value erc20 app) in
    let gmp_deps = by_value auth app ∷ callable "MsgServiceRouter" ∷ [] in
    let app = record app { gmp_keeper = some (governed gmp gmp_deps) } in
    let app = record app { router_v2 = (module_name transfer, transfer_stack_v2) ∷ [] } in
    let app = record app { router_v1 = some []; router_v2_set = true } in
    record app { light_clients = app.light_clients ++ attestations ∷ [] }

-- The token factory, IFT, and the GMP route with its callbacks into IFT.
unfoldable pub make_app_keepers : App → App
make_app_keepers app =
    let token_factory_keeper : Keeper = record {
      stores = kv tokenfactory ∷ [];
      object_store = none;
      authority = none;
      deps = by_value auth app ∷ by_value bank app ∷ [];
    } in
    let app = record app { token_factory_keeper = some token_factory_keeper } in
    let ift_deps =
      by_value auth app
      ∷ by_value auth app
      ∷ address tokenfactory
      ∷ by_value gmp app
      ∷ callable "MsgServiceRouter"
      ∷ by_value ibc app
      ∷ by_value ibc app
      ∷ [] in
    let app = record app { ift_keeper = some (governed ift ift_deps) } in
    let cb_gmp_module =
      callbacks_v2 (gmp_module (by_value gmp app)) (by_value ibc app) (address ift)
        (by_value ibc app) max_callback_gas in
    record app { router_v2 = app.router_v2 ++ (port_id gmp, cb_gmp_module) ∷ [] }

-- The modules of the module manager, with the keepers that each is given.
unfoldable pub make_modules : App → App
make_modules app = record app {
  modules =
      (genutil, by_value auth app ∷ [])
      ∷ (auth, by_value auth app ∷ [])
      ∷ (bank, by_value bank app ∷ by_value auth app ∷ [])
      ∷ (consensus, by_value consensus app ∷ [])
      ∷ (gov, by_value gov app ∷ by_value auth app ∷ by_value bank app ∷ [])
      ∷ (upgrade, by_value upgrade app ∷ by_value auth app ∷ [])
      ∷ (poa, by_value poa app ∷ [])
      ∷ (ibc, by_value ibc app ∷ [])
      ∷ (transfer, by_value transfer app ∷ [])
      ∷ (gmp, by_value gmp app ∷ [])
      ∷ (attestations, [])
      ∷ (evm, by_value evm app ∷ by_value auth app ∷ by_value bank app ∷ by_value auth app ∷ [])
      ∷ (feemarket, by_value feemarket app ∷ [])
      ∷ (erc20, by_value erc20 app ∷ by_value auth app ∷ [])
      ∷ (tokenfactory, by_value tokenfactory app ∷ by_value auth app ∷ by_value bank app ∷ [])
      ∷ (ift, by_value ift app ∷ [])
      ∷ [];
}

-- What the keepers are made of beside each other.
pub record Inputs : Type 0 where
  pub unsafe_skip_upgrades : List ℤ
  pub non_transient_keys : List StoreKey
  pub evm_chain_id : ℕ

-- All of the keepers, in order.
unfoldable pub make_keepers : Inputs → App → App
unfolding make_base_keepers set_tx_config make_chain_keepers make_evm_keepers make_ibc_stack
    make_app_keepers make_modules
make_keepers given app =
    let app = set_tx_config (make_base_keepers app) in
    let app = make_chain_keepers given.unsafe_skip_upgrades app in
    let app = make_evm_keepers given.non_transient_keys given.evm_chain_id app in
    make_modules (make_app_keepers (make_ibc_stack app))
