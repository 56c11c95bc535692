-- ===== src/Start.antt =====
-- app/app.go, `newApp`: the application that the server's start command runs.
pub mod Laws
mod Tests
use sandbox_ledger.Base.{ℕ, true, List, [], ◌∷◌, Outcome}
use sandbox_ledger.BaseSetup.{BaseOption, set_chain_id}
use sandbox_ledger.ChainId.{ChainIdLib, chain_id_from_opts}
use sandbox_ledger.Mempool.{Slots}
use sandbox_ledger.Wiring.{App}
use sandbox_ledger.Wiring.Build.{Env, new_app}

-- What the start command's options lead to: the answers to `NewApp`, and the limit of gas.
pub record StartLib : Type 1 where
  pub chain : ChainIdLib
  pub env : chain.Opts → Env
  pub max_gas_wanted : chain.Opts → ℕ

module _ (l : StartLib) where
  -- `newApp`
  unfoldable pub start_app : (opts : l.chain.Opts) → Outcome (App × Slots (l.env opts).mempool)
  start_app opts =
      new_app (l.env opts) (l.max_gas_wanted opts) true
        (set_chain_id (chain_id_from_opts l.chain opts) ∷ [])
