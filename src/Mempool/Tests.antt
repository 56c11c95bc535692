-- ===== src/Mempool/Tests.antt =====
-- A mempool that is its size limit, and a world that lists what was closed.
use sandbox_ledger.Base.{ℕ, ◌≡◌, refl, ◌⊎◌, true, Option, none, some, List, [], ◌∷◌, Error, foreign}
use sandbox_ledger.Base.Int.{ℤ, pos, negsuc}
use sandbox_ledger.Mempool.{nil_interface, MempoolLib, Slots, Closing, configure_evm_mempool, close}
use sandbox_ledger.Mempool.Laws.{
  IsWanted, IsUnwanted, Installed, close_both, close_base, configure_evm_mempool-close,
}

abbrev join : Option Error → Option Error → Option Error
join none e = e
join (some e) _ = some e

abbrev lib : MempoolLib
lib = record {
  O = ℤ;
  A = Unit;
  M = ℤ;
  AnteHandler = Unit;
  PoolConfig = Unit;
  GasLimit = Unit;
  Tip = Unit;
  CheckTxHandler = ℤ;
  ProposalHandler = ℤ;
  has_chain_config = true;
  get_cosmos_pool_max_tx = λ o. o;
  get_legacy_pool_config = λ _. tt;
  get_block_gas_limit = λ _. tt;
  get_min_tip = λ _. tt;
  new_experimental_evm_mempool = λ _ _ max_tx. max_tx;
  new_check_tx_handler = λ m. m;
  prepare_proposal_handler = λ m. m;
  join = join;
}

abbrev app : Slots lib
app = record {
  parts = tt;
  ante_handler = tt;
  evm_mempool = nil_interface;
  check_tx = none;
  prepare_proposal = none;
  base_mempool = nil_interface;
}

-- 1 for the mempool, 0 for the base application.
abbrev closing : Closing lib (List ℕ)
closing = record {
  close_mempool = λ m w. (some (foreign "pool"), 1 ∷ w);
  close_base_app = λ w. (none, 0 ∷ w);
}

closes_both :
    close lib closing (configure_evm_mempool lib (pos 5) app).1 []
    ≡ (some (foreign "pool"), 0 ∷ 1 ∷ [])
unfolding configure_evm_mempool close
closes_both = refl

closes_base : close lib closing (configure_evm_mempool lib (negsuc 0) app).1 [] ≡ (none, 0 ∷ [])
unfolding configure_evm_mempool close
closes_base = refl

configure_evm_mempool-close_example :
    ((configure_evm_mempool lib (pos 5) app).0 ≡ none)
    × (IsWanted lib (pos 5)
          × ((m : ℤ) × Installed lib app (configure_evm_mempool lib (pos 5) app).1 m
              × (close lib closing (configure_evm_mempool lib (pos 5) app).1 []
                  ≡ close_both lib closing m []))
        ⊎ IsUnwanted lib (pos 5)
          × ((configure_evm_mempool lib (pos 5) app).1 ≡ app)
          × (close lib closing (configure_evm_mempool lib (pos 5) app).1 []
              ≡ close_base lib closing []))
configure_evm_mempool-close_example = configure_evm_mempool-close lib closing (pos 5) app [] refl
