-- ===== src/BaseSetup/Tests.antt =====
-- The set-up on a machine of eight threads and four processors.
use sandbox_ledger.Base.{◌≡◌, refl, [], ◌∷◌}
use sandbox_ledger.BaseSetup.{
  Machine, set_chain_id, set_optimistic_execution, new_base_app, stm_workers,
}

abbrev machine : Machine
machine = record { range_keys = λ ks. ks; gomaxprocs = 8; num_cpu = 4 }

four_workers : stm_workers machine ≡ 4
unfolding stm_workers
four_workers = refl

options_in_order :
    (new_base_app (set_chain_id "sandbox-1" ∷ [])).options
    ≡ set_chain_id "sandbox-1" ∷ set_optimistic_execution ∷ []
unfolding new_base_app
options_in_order = refl
