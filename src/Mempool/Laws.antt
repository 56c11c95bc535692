-- ===== src/Mempool/Laws.antt =====
-- When the EVM mempool is installed, and what `Close` then closes.
use sandbox_ledger.Base.{
  ◌≡◌, refl, ◌⊎◌, inl, inr, true, false, Option, none, some, Error, Bool-cases,
}
use sandbox_ledger.Base.Int.{is_negative}
use sandbox_ledger.Mempool.{
  experimental, nil_interface, MempoolLib, Slots, Closing, configure_evm_mempool, close, made,
  close_evm_mempool,
}

module _ (l : MempoolLib) where
  -- The chain has an EVM configuration and the options do not turn the mempool off.
  abbrev pub IsWanted : l.O → Type 0
  IsWanted opts =
      (l.has_chain_config ≡ true) × (is_negative (l.get_cosmos_pool_max_tx opts) ≡ false)

  abbrev pub IsUnwanted : l.O → Type 0
  IsUnwanted opts =
      (l.has_chain_config ≡ false) ⊎ (is_negative (l.get_cosmos_pool_max_tx opts) ≡ true)

  -- One mempool `m` behind every slot, and the rest of the application as it was.
  pub record Installed (app app' : Slots l) (m : l.M) : Type 0 where
    pub evm_mempool : app'.evm_mempool ≡ experimental (some m)
    pub base_mempool : app'.base_mempool ≡ experimental (some m)
    pub check_tx : app'.check_tx ≡ some (l.new_check_tx_handler m)
    pub prepare_proposal : app'.prepare_proposal ≡ some (l.prepare_proposal_handler m)
    pub parts : app'.parts ≡ app.parts
    pub ante_handler : app'.ante_handler ≡ app.ante_handler

  abbrev pub close_both : {W : Type 0} → Closing l W → l.M → W → Option Error × W
  close_both c m w =
      let (err, w') = c.close_mempool m w in
      let (base_err, w'') = c.close_base_app w' in (l.join err base_err, w'')

  abbrev pub close_base : {W : Type 0} → Closing l W → W → Option Error × W
  close_base c w = let (base_err, w') = c.close_base_app w in (l.join none base_err, w')

  -- The configuration never fails. Either the mempool is wanted, and then the one mempool that is
  -- made stands behind the application's slots and the base application's, and a later `Close`
  -- closes it and then the base application, also if closing the mempool fails; or it is not
  -- wanted, and then the application is unchanged and `Close` closes the base application alone.
  pub configure_evm_mempool-close :
      {W : Type 0} (c : Closing l W) (opts : l.O) (app : Slots l) (w : W)
      → app.evm_mempool ≡ nil_interface
      → ((configure_evm_mempool l opts app).0 ≡ none)
        × (IsWanted opts
              × ((m : l.M) × Installed app (configure_evm_mempool l opts app).1 m
                  × (close l c (configure_evm_mempool l opts app).1 w ≡ close_both c m w))
            ⊎ IsUnwanted opts
              × ((configure_evm_mempool l opts app).1 ≡ app)
              × (close l c (configure_evm_mempool l opts app).1 w ≡ close_base c w))
  unfolding configure_evm_mempool close
  configure_evm_mempool-close c opts app w unset = elim (Bool-cases l.has_chain_config) [
    | inl chain ↦ elim (Bool-cases (is_negative (l.get_cosmos_pool_max_tx opts))) [
      | inl off ↦ rw (chain, off) (refl, inr (inr refl, refl, rw (unset, close_evm_mempool)))
      | inr on ↦
          rw (chain, on)
            (
              refl,
              inl (
                (refl, refl),
                (
                  made l opts (l.get_cosmos_pool_max_tx opts) app,
                  record {
                    evm_mempool = refl;
                    base_mempool = refl;
                    check_tx = refl;
                    prepare_proposal = refl;
                    parts = refl;
                    ante_handler = refl;
                  },
                  refl,
                ),
              ),
            )
    ]
    | inr no_chain ↦ rw no_chain (refl, inr (inl refl, refl, rw (unset, close_evm_mempool)))
  ]
