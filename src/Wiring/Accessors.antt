-- ===== src/Wiring/Accessors.antt =====
-- The accessors of the application: its name, its codecs, the stores that it keeps and the handler
-- that is set.
use sandbox_ledger.Base.{◌≡◌, refl, String, Option, none, some, List, ◌==◌}
use sandbox_ledger.Base.Lists.{find}
use sandbox_ledger.Names.{StoreKey}
use sandbox_ledger.Ante.{HandlerOptions, AnteHandler, new_poa_evm_ante_handler}
use sandbox_ledger.Wiring.{App, Ref, Encoding, TxConfig}
use sandbox_ledger.Wiring.Build.{Env}

-- `Configurator`, by its codec; `none` while it is not made.
unfoldable pub configurator : App → Option Encoding
configurator app = app.configurator

-- `LegacyAmino`
unfoldable pub legacy_amino : App → Encoding
legacy_amino app = app.legacy_amino

-- `AppCodec`
unfoldable pub app_codec : App → Encoding
app_codec app = app.app_codec

-- `InterfaceRegistry`
unfoldable pub interface_registry : App → Encoding
interface_registry app = app.interface_registry

-- `TxConfig`
unfoldable pub tx_config : App → TxConfig
tx_config app = app.tx_config

-- `Name`
unfoldable pub name : App → String
name app = app.base.name

-- The map from the names of stores to the keys that `NewKVStoreKeys` has made for them.
abbrev pub lookup_key : (StoreKey → String) → List StoreKey → String → Option StoreKey
lookup_key name_of stores s = find (λ k. name_of k == s) stores

-- `GetKey`, for the names that the modules' packages give to their stores; `none` is a nil pointer.
unfoldable pub get_key : (StoreKey → String) → App → String → Option StoreKey
get_key name_of app s = lookup_key name_of app.keys s

-- `GetAnteHandler`
unfoldable pub get_ante_handler : (e : Env) → App → Option (AnteHandler e.Context e.Body)
get_ante_handler e app = elim app.ante_options [
  | none ↦ none
  | some o ↦ some (new_poa_evm_ante_handler e.ante o)
]

pub get_ante_handler-some :
    (e : Env) (app : App) (o : HandlerOptions Ref)
    → app.ante_options ≡ some o
    → get_ante_handler e app ≡ some (new_poa_evm_ante_handler e.ante o)
unfolding get_ante_handler
get_ante_handler-some e app o set = rw set refl
