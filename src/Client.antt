-- ===== src/Client.antt =====
-- app/app.go, `NewRootCmd`: the client context that the commands start from.
use sandbox_ledger.Wiring.{App, Encoding, TxConfig}
use sandbox_ledger.Wiring.Accessors.{interface_registry, app_codec, tx_config, legacy_amino}
use sandbox_ledger.Base.{String, Bool, true, Option, some}

-- `sdktestutil.TestEncodingConfig`
pub record EncodingConfig : Type 0 where
  pub interface_registry : Encoding
  pub codec : Encoding
  pub tx_config : TxConfig
  pub amino : Encoding

-- `encodingConfig` of `NewRootCmd`, over its temporary application.
unfoldable pub encoding_config : App → EncodingConfig
encoding_config temp_app = record {
  interface_registry = interface_registry temp_app;
  codec = app_codec temp_app;
  tx_config = tx_config temp_app;
  amino = legacy_amino temp_app;
}

-- The fields of `client.Context` that `NewRootCmd` sets. Values of other packages stand as their
-- names.
pub record ClientContext (Home : Type 0) : Type 0 where
  pub codec : Option Encoding
  pub interface_registry : Option Encoding
  pub tx_config : Option TxConfig
  pub legacy_amino : Option Encoding
  pub input : Option String
  pub account_retriever : Option String
  pub broadcast_mode : Option String
  pub home_dir : Option Home
  -- the prefix of the environment's variables
  pub viper_prefix : Option String
  pub keyring_options : Option String
  pub ledger_has_protobuf : Bool

-- `client.Context{}.WithCodec(…)` to `WithLedgerHasProtobuf(true)`
unfoldable pub initial_client_context : {Home : Type 0} → EncodingConfig → Home → ClientContext Home
initial_client_context encoding_config default_node_home = record {
  codec = some encoding_config.codec;
  interface_registry = some encoding_config.interface_registry;
  tx_config = some encoding_config.tx_config;
  legacy_amino = some encoding_config.amino;
  input = some "os.Stdin";
  account_retriever = some "authtypes.AccountRetriever{}";
  broadcast_mode = some "flags.FlagBroadcastMode";
  home_dir = some default_node_home;
  viper_prefix = some "";
  keyring_options = some "hd.EthSecp256k1Option()";
  ledger_has_protobuf = true;
}
