-- ===== src/AutoCli.antt =====
-- app/app.go, `AutoCliOpts`: the modules whose commands the command line generates.
pub mod Laws
mod Tests
use sandbox_ledger.Base.{
  String, Bool, true, false, Option, none, some, List, [], ◌∷◌, if◌then◌else◌, ◌==◌,
}

-- A module of the module manager: its name if it is a `module.HasName`, and whether it is an
-- `appmodule.AppModule`.
pub record ManagedModule (M : Type 0) : Type 0 where
  pub name : Option String
  pub is_app_module : Bool
  pub app_module : M

-- `autocli.AppOptions`, as far as it is filled.
pub record AutoCliOptions (M O C : Type 0) : Type 0 where
  pub modules : String → Option M
  pub module_options : O
  pub address_codec : C
  pub validator_address_codec : C
  pub consensus_address_codec : C

-- The calls of other packages, with the prefixes of the SDK's global configuration.
pub record AutoCliLib (M O C : Type 0) : Type 0 where
  pub extract_auto_cli_options : List (ManagedModule M) → O
  pub new_evm_codec : String → C
  pub account_addr_prefix : String
  pub validator_addr_prefix : String
  pub consensus_addr_prefix : String

module _ {M : Type 0} where
  -- `modules[name] = m`
  abbrev pub assign : String → M → (String → Option M) → String → Option M
  assign name m modules key = if key == name then some m else modules key

  -- The two tests of the loop's body.
  abbrev pub enter : Option String → Bool → M → (String → Option M) → String → Option M
  enter none is_app m modules = modules
  enter (some name) false m modules = modules
  enter (some name) true m modules = assign name m modules

  -- The body of the loop.
  unfoldable pub add_module : ManagedModule M → (String → Option M) → String → Option M
  add_module m modules = enter m.name m.is_app_module m.app_module modules

  -- The loop, in the order in which Go ranges over the manager's map.
  unfoldable pub collect : List (ManagedModule M) → (String → Option M) → String → Option M
  unfolding add_module
  collect [] modules = modules
  collect (m ∷ ms) modules = collect ms (add_module m modules)

  -- `AutoCliOpts`
  unfoldable pub auto_cli_opts :
      {O C : Type 0} → AutoCliLib M O C → List (ManagedModule M) → AutoCliOptions M O C
  unfolding collect
  auto_cli_opts l order = record {
    modules = collect order (λ _. none);
    module_options = l.extract_auto_cli_options order;
    address_codec = l.new_evm_codec l.account_addr_prefix;
    validator_address_codec = l.new_evm_codec l.validator_addr_prefix;
    consensus_address_codec = l.new_evm_codec l.consensus_addr_prefix;
  }
