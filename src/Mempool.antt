-- ===== src/Mempool.antt =====
-- app/app.go, `configureEVMMempool` and `Close`: whether the application runs the EVM mempool, and
-- how it shuts down.
pub mod Laws
mod Tests
use sandbox_ledger.Base.{
  ℕ, ◌≡◌, Bool, true, false, Option, none, some, List, [], ◌∷◌, Error, if◌then◌else◌,
}
use sandbox_ledger.Base.Int.{ℤ, is_negative}

-- A value of the interface `sdkmempool.ExtMempool`: nil, a pointer to the EVM mempool (which may
-- itself be nil), or a mempool of another type.
pub data ExtMempool (M : Type 0) : Type 0 where
  nil_interface : ExtMempool M
  experimental : Option M → ExtMempool M
  other_type : ExtMempool M

-- `evmmempool.EVMMempoolConfig`
pub record MempoolConfig (H P N T : Type 0) : Type 0 where
  pub ante_handler : H
  pub legacy_pool_config : P
  pub block_gas_limit : N
  pub min_tip : T

-- The calls that the two functions make of cosmos/evm and the SDK. `O` is the type of the
-- application's options, `A` that of the parts of the application that the mempool is made of.
pub record MempoolLib : Type 1 where
  pub O : Type 0
  pub A : Type 0
  pub M : Type 0
  pub AnteHandler : Type 0
  pub PoolConfig : Type 0
  pub GasLimit : Type 0
  pub Tip : Type 0
  pub CheckTxHandler : Type 0
  pub ProposalHandler : Type 0
  -- `evmtypes.GetChainConfig() != nil`
  pub has_chain_config : Bool
  pub get_cosmos_pool_max_tx : O → ℤ
  pub get_legacy_pool_config : O → PoolConfig
  pub get_block_gas_limit : O → GasLimit
  pub get_min_tip : O → Tip
  pub new_experimental_evm_mempool : A → MempoolConfig AnteHandler PoolConfig GasLimit Tip → ℤ → M
  pub new_check_tx_handler : M → CheckTxHandler
  -- the default proposal handler over the mempool, with the signer extraction of Ethereum
  -- transactions in front of the default one
  pub prepare_proposal_handler : M → ProposalHandler
  -- `errors.Join`
  pub join : Option Error → Option Error → Option Error

module _ (l : MempoolLib) where
  open l use {O, A, M, AnteHandler, CheckTxHandler, ProposalHandler}

  -- What the two functions read and write of the application: `ante_handler`, `check_tx` and
  -- `prepare_proposal` are the base application's, and `base_mempool` is its mempool.
  pub record Slots : Type 0 where
    pub parts : A
    pub ante_handler : AnteHandler
    pub evm_mempool : ExtMempool M
    pub check_tx : Option CheckTxHandler
    pub prepare_proposal : Option ProposalHandler
    pub base_mempool : ExtMempool M

  -- The mempool that `configureEVMMempool` makes.
  unfoldable pub made : O → ℤ → Slots → M
  made opts max_tx app =
      l.new_experimental_evm_mempool app.parts
        (record {
          ante_handler = app.ante_handler;
          legacy_pool_config = l.get_legacy_pool_config opts;
          block_gas_limit = l.get_block_gas_limit opts;
          min_tip = l.get_min_tip opts;
        })
        max_tx

  -- The body of `configureEVMMempool` behind its two early returns.
  unfoldable pub install : O → ℤ → Slots → Slots
  unfolding made
  install opts max_tx app =
      let mempool = made opts max_tx app in
      record app {
        evm_mempool = experimental (some mempool);
        check_tx = some (l.new_check_tx_handler mempool);
        prepare_proposal = some (l.prepare_proposal_handler mempool);
        base_mempool = experimental (some mempool);
      }

  -- `configureEVMMempool`; the error that it returns is always nil.
  unfoldable pub configure_evm_mempool : O → Slots → Option Error × Slots
  unfolding install
  configure_evm_mempool opts app =
      if l.has_chain_config
      then (let max_tx = l.get_cosmos_pool_max_tx opts in
          if is_negative max_tx then (none, app) else (none, install opts max_tx app))
      else (none, app)

  -- `GetMempool`
  unfoldable pub get_mempool : Slots → ExtMempool M
  get_mempool app = app.evm_mempool

  -- The two calls of `Close`, over what they act on.
  pub record Closing (W : Type 0) : Type 0 where
    pub close_mempool : M → W → Option Error × W
    pub close_base_app : W → Option Error × W

  unfoldable pub close_evm_mempool : {W : Type 0} → Closing W → ExtMempool M → W → Option Error × W
  close_evm_mempool c (experimental (some m)) w = c.close_mempool m w
  close_evm_mempool c _ w = (none, w)

  -- `Close`
  unfoldable pub close : {W : Type 0} → Closing W → Slots → W → Option Error × W
  unfolding close_evm_mempool
  close c app w =
      let (err, w') = close_evm_mempool c app.evm_mempool w in
      let (base_err, w'') = c.close_base_app w' in (l.join err base_err, w'')
