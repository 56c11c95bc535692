-- ===== src/Blocks/Metadata.antt =====
-- A chain that starts from the genesis of `sandboxd init` has the metadata of the EVM's denom in
-- every block.
mod Tests
use sandbox_ledger.Base.{ℕ, String, List, ◌≡◌, ◌∙◌, Bool, true, returned}
use sandbox_ledger.BaseSetup.{BaseOption}
use sandbox_ledger.Genesis.{GenesisLib}
use sandbox_ledger.Genesis.Defaults.{GenesisLaws}
use sandbox_ledger.Modules.{ManagerLib, InitLib}
use sandbox_ledger.Modules.Boot.{BootLaws}
use sandbox_ledger.Modules.Metadata.{Written, FinishKeeps, init_chainer-has_metadata}
use sandbox_ledger.Mempool.{Slots}
use sandbox_ledger.Wiring.{App}
use sandbox_ledger.Wiring.Build.{Env, new_app}
use sandbox_ledger.Blocks.{BlockLib}
use sandbox_ledger.Blocks.Calls.{RunsInOrder}
use sandbox_ledger.Blocks.Life.{Node, Phase, Reach, HooksKeep, context_of, Reach_keeps}

-- The bank never loses metadata: what the contexts of blocks have is what the state has, and
-- neither the modules' hooks nor the transactions remove any.
pub record NeverLoses {m : ManagerLib} {l : BlockLib} (runs : RunsInOrder l m) {g : GenesisLib}
    {i : InitLib g} (node : Node l i) (laws : BootLaws i) : Type 0 where
  pub has_metadata : l.Ctx → String → Bool
  pub same : (s : i.State) (d : String) → has_metadata (node.context s) d ≡ laws.has_metadata s d
  pub finish_keeps : FinishKeeps laws
  pub pre_keeps :
      (d : String) → HooksKeep runs.has_pre_blocker runs.pre_hook (λ ctx. has_metadata ctx d ≡ true)
  pub begin_keeps :
      (d : String)
      → HooksKeep m.has_begin_blocker runs.begin_hook (λ ctx. has_metadata ctx d ≡ true)
  pub end_keeps :
      (d : String) → HooksKeep m.has_end_blocker runs.end_hook (λ ctx. has_metadata ctx d ≡ true)
  pub txs_keep :
      (d : String) (tx : node.Tx) (ctx : l.Ctx)
      → has_metadata ctx d ≡ true
      → has_metadata (node.deliver tx ctx) d ≡ true

-- A chain that starts from the genesis which `sandboxd init` writes, on the application that
-- `NewApp` returns, has the bank's metadata of the EVM's default denom in every state that it
-- reaches, at the start, between two blocks and in each block, if the bank never loses metadata.
pub Reach-has_metadata :
    (e : Env) (opts : ℕ) (b : Bool) (base_options : List BaseOption) (r : App × Slots e.mempool)
    → new_app e opts b base_options ≡ returned r
    → (l : BlockLib) (runs : RunsInOrder l e.manager)
    → (g : GenesisLib) (i : InitLib g) (node : Node l i) (laws : BootLaws i)
      (genesis_laws : GenesisLaws g)
    → (keeps : NeverLoses runs node laws) → (bytes : i.Bytes) (empty : i.State) → Written g i bytes
    → (phase : Phase l) → Reach l r.0 i node bytes empty phase
    → keeps.has_metadata (context_of phase) g.default_params.evm_denom ≡ true
Reach-has_metadata e n b opts r made l runs g i node laws genesis_laws keeps bytes empty written =
    let denom = g.default_params.evm_denom in
    Reach_keeps e n b opts r made l runs g i node (λ ctx. keeps.has_metadata ctx denom ≡ true)
      (keeps.pre_keeps denom) (keeps.begin_keeps denom) (keeps.end_keeps denom)
      (keeps.txs_keep denom) bytes empty
      (λ state response h.
        keeps.same state denom
        ∙ init_chainer-has_metadata i laws genesis_laws bytes empty state response
            keeps.finish_keeps written h)
