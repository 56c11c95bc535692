-- ===== src/Wiring/BaseApp.antt =====
-- The base application of a finished application: its options, the stores that the parallel runner
-- and the EVM keeper know, and the runner's workers.
use mathlib.Core.Path.{subst}
use sandbox_ledger.Base.{
  ap, sym, ℕ, ◌+◌, ◌≤◌, ◌<◌, ◌≡◌, refl, Bool, true, some, List, [], ◌∷◌, ◌++◌, returned, arith,
}
use sandbox_ledger.Names.{StoreKey}
use sandbox_ledger.BaseSetup.{
  BaseOption, app_name, set_optimistic_execution, StmRunner, keys, o_keys, transient_keys,
  set_up_base, stm_workers, non_transient_keys,
}
use sandbox_ledger.BaseSetup.Laws.{
  count, count-append, RangesOnce, count-non_transient_keys, stm_workers_bounds,
}
use sandbox_ledger.Mempool.{Slots}
use sandbox_ledger.Wiring.{App}
use sandbox_ledger.Wiring.Keepers.{make_keepers}
use sandbox_ledger.Wiring.Handlers.{mount_stores, set_hooks}
use sandbox_ledger.Wiring.Build.{set_configurator, Env, new_app, set_orders}
use sandbox_ledger.Wiring.Accessors.{name}
use sandbox_ledger.Wiring.Final.{new_app-all}

abbrev pub SetUp : Env → List BaseOption → App → Type 0
SetUp e opts app =
    (app.base ≡ set_up_base e.machine opts)
    × (app.evm_store_keys ≡ non_transient_keys e.machine)
    × (app.mounted ≡ keys ++ o_keys ++ transient_keys)

pub new_app-SetUp :
    (e : Env) (g : ℕ) (load_latest : Bool) (opts : List BaseOption) (r : App × Slots e.mempool)
    → new_app e g load_latest opts ≡ returned r
    → SetUp e opts r.0
unfolding make_keepers mount_stores set_hooks set_configurator set_orders
new_app-SetUp =
    new_app-all (λ e opts _ _. SetUp e opts) (λ e opts g orders b printed. (refl, refl, refl))

-- A list of stores that holds every mounted store but the transient ones, as often as it is mounted.
abbrev pub HoldsPersistent : App → List StoreKey → Type 0
HoldsPersistent app stores =
    (key : StoreKey) → count key stores + count key transient_keys ≡ count key app.mounted

pub record RunsInParallel (e : Env) (opts : List BaseOption) (app : App) : Type 0 where
  pub runner : StmRunner
  pub installed : app.base.stm_runner ≡ some runner
  pub runner_stores : HoldsPersistent app runner.stores
  pub evm_stores : HoldsPersistent app app.evm_store_keys
  pub some_worker : 1 ≤ runner.workers
  pub not_above_gomaxprocs : runner.workers ≤ e.machine.gomaxprocs
  pub not_above_num_cpu : runner.workers ≤ e.machine.num_cpu
  pub no_block_gas_meter : app.base.block_gas_meter_disabled ≡ true
  pub named : name app ≡ app_name
  pub optimistic : app.base.options ≡ opts ++ set_optimistic_execution ∷ []

persistent :
    (e : Env)
    → RangesOnce e.machine
    → (app : App) → app.mounted ≡ keys ++ o_keys ++ transient_keys
    → HoldsPersistent app (non_transient_keys e.machine)
persistent e once app mounted key = rw mounted (
    omega (
      arith,
      count-append key (keys ++ o_keys) transient_keys,
      count-non_transient_keys e.machine once key,
    ))

-- The EVM keeper is given every mounted store but the transient ones.
pub new_app-evm_stores :
    (e : Env) (g : ℕ) (load_latest : Bool) (opts : List BaseOption) (r : App × Slots e.mempool)
    → RangesOnce e.machine
    → new_app e g load_latest opts ≡ returned r
    → HoldsPersistent r.0 r.0.evm_store_keys
new_app-evm_stores e g load_latest opts r once h =
    let (_, evm, mounted) = new_app-SetUp e g load_latest opts r h in
    subst (HoldsPersistent r.0) (sym evm) (persistent e once r.0 mounted)

-- On a machine that runs at least one thread, and in whatever order Go ranges over the keys, the
-- application that `NewApp` returns executes blocks with a runner of at least one worker, and of
-- no more than GOMAXPROCS or the machine's processors. The runner and the EVM keeper are given
-- every mounted store but the transient ones, and each once; the block gas meter is off, optimistic
-- execution is the last of the base application's options, and `Name` is `sandboxd`.
pub new_app-RunsInParallel :
    (e : Env) (g : ℕ) (load_latest : Bool) (opts : List BaseOption) (r : App × Slots e.mempool)
    → RangesOnce e.machine
    → 0 < e.machine.gomaxprocs
    → 0 < e.machine.num_cpu
    → new_app e g load_latest opts ≡ returned r
    → RunsInParallel e opts r.0
unfolding set_up_base name
new_app-RunsInParallel e g load_latest opts r once threads cpus h =
    let (base, _, mounted) = new_app-SetUp e g load_latest opts r h in
    let holds = persistent e once r.0 mounted in
    let (some_worker, by_threads, by_cpus) = stm_workers_bounds e.machine threads cpus in
    record {
      runner = record {
        stores = non_transient_keys e.machine;
        workers = stm_workers e.machine;
        estimate = true;
      };
      installed = ap (λ b. b.stm_runner) base;
      runner_stores = holds;
      evm_stores = new_app-evm_stores e g load_latest opts r once h;
      some_worker = some_worker;
      not_above_gomaxprocs = by_threads;
      not_above_num_cpu = by_cpus;
      no_block_gas_meter = ap (λ b. b.block_gas_meter_disabled) base;
      named = ap (λ b. b.name) base;
      optimistic = ap (λ b. b.options) base;
    }
