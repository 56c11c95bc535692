-- ===== src/Start/Laws.antt =====
-- The chain id of the application that the start command runs.
use sandbox_ledger.Base.{String, ◌≡◌, ap, ◌∙◌, true, List, [], ◌∷◌, returned}
use sandbox_ledger.BaseSetup.{
  set_up_base, BaseOption, set_chain_id, set_optimistic_execution, other_option,
}
use sandbox_ledger.ChainId.{by_sources, chain_id_from_opts, chain_id_from_opts-sources}
use sandbox_ledger.Mempool.{Slots}
use sandbox_ledger.Wiring.{App}
use sandbox_ledger.Wiring.Dependencies.{IsComplete, new_app-IsComplete}
use sandbox_ledger.Wiring.Serving.{new_app-Serves}
use sandbox_ledger.Wiring.BaseApp.{new_app-SetUp}
use sandbox_ledger.Start.{StartLib, start_app}

-- The chain id that a base application has after its options, from the one before.
abbrev pub chain_id : List BaseOption → String → String
chain_id [] before = before
chain_id (set_chain_id id ∷ options) before = chain_id options id
chain_id (set_optimistic_execution ∷ options) before = chain_id options before
chain_id (other_option _ ∷ options) before = chain_id options before

module _ (l : StartLib) where
  -- The start command's application has loaded the latest version, all its keepers are complete,
  -- and its chain id is the flag's if that is given, otherwise that of the genesis file below a home
  -- directory that is given, and otherwise empty.
  pub start_app-chain_id :
      (opts : l.chain.Opts) (r : App × Slots (l.env opts).mempool)
      → start_app l opts ≡ returned r
      → (chain_id r.0.base.options "" ≡ by_sources l.chain opts)
        × (r.0.loaded ≡ true)
        × IsComplete r.0
  unfolding start_app set_up_base
  start_app-chain_id opts r h =
      let g = l.max_gas_wanted opts in
      let option : BaseOption = set_chain_id (chain_id_from_opts l.chain opts) in
      let (base, _, _) = new_app-SetUp (l.env opts) g true (option ∷ []) r h in
      let (serves, _) = new_app-Serves (l.env opts) g true (option ∷ []) r h in
      (
        ap (λ b. chain_id b.options "") base ∙ chain_id_from_opts-sources l.chain opts,
        serves.loaded,
        new_app-IsComplete (l.env opts) g true (option ∷ []) r h,
      )
