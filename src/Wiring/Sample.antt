-- ===== src/Wiring/Sample.antt =====
-- An application whose calls all succeed but for the proto annotations, with a mempool that is its
-- ante handler and its size.
use sandbox_ledger.Base.{
  [], ◌∷◌, Error, zero, suc, ◌+◌, Bool, false, ℕ, refl, true, Option, none, some, foreign, Result,
  ok, err, returned,
}
use sandbox_ledger.Base.Int.{ℤ, pos, negsuc}
use sandbox_ledger.Modules.{
  HookOrders, ManagerLib, pre_blocker_order, begin_blocker_order, end_blocker_order,
  genesis_module_order, set_module_orders,
}
use sandbox_ledger.Ante.{Tx, Decorator, AnteLib, AnteHandler}
use sandbox_ledger.Ante.Chain.{ChainLaws, Check, hand_on, nest}
use mathlib.Core.Logic.{ite}
use sandbox_ledger.Names.{ModuleName, ModuleName-discrete}
use sandbox_ledger.Mempool.{MempoolLib}
use sandbox_ledger.Wiring.{Ref}
use sandbox_ledger.Wiring.Handlers.{ante_handler_options}
use sandbox_ledger.Wiring.Build.{Env}
use sandbox_ledger.Wiring.Answers.{Loads, Answers}

abbrev pub manager : ManagerLib
manager = record {
  has_begin_blocker = λ _. true;
  has_end_blocker = λ _. true;
  has_init_genesis = λ _. true;
  has_export_genesis = λ _. true;
  assert_no_forgotten_modules = λ modules needs order. returned tt;
}

-- A check of the two fields that the test looks at.
abbrev pub required : Option Ref → Option Ref → Result (Unit {0})
required none _ = err (foreign "account keeper is required")
required (some _) none = err (foreign "bank keeper is required")
required (some _) (some _) = ok tt

-- A state is the fees that each module account has collected, and a transaction's body its fee.
abbrev pub Fees : Type 0
Fees = ModuleName → ℕ

abbrev pub body_of : Option (Tx ℕ) → ℕ
body_of none = 0
body_of (some tx) = tx.body

-- Transactions without a fee are refused.
abbrev pub deduct : ℕ → ModuleName → Fees → Fees × Option Error
deduct zero recipient fees = (fees, some (foreign "insufficient fee"))
deduct (suc n) recipient fees =
    (λ m. fees m + ite (ModuleName-discrete m recipient) (suc n) 0, none)

abbrev pub check : Check Ref ℕ ℕ Fees ℕ
check (Decorator.deduct_fee _ _ _ _ recipient) fees tx sim = deduct (body_of tx) recipient fees
check _ fees tx sim = (fees, none)

abbrev pub orders : HookOrders
orders = record {
  pre_blockers = pre_blocker_order;
  begin_blockers = begin_blocker_order;
  end_blockers = end_blocker_order;
  init_genesis = genesis_module_order;
  export_genesis = genesis_module_order;
}

pub loads : (b : Bool) → Loads b (ok tt)
loads false = tt
loads true = refl

module _ {C : Type 0} (check : Check Ref ℕ ℕ C ℕ) where
  abbrev chained : Decorator Ref ℕ ℕ → AnteHandler C ℕ → AnteHandler C ℕ
  chained d next ctx tx sim = hand_on (check d ctx tx sim) next ctx tx sim

  abbrev pub ante_of : AnteLib Ref ℕ ℕ C ℕ
  ante_of = record {
    ethereum_tx_url = "/ethereum";
    dynamic_fee_tx_url = "/dynamic";
    msg_ethereum_tx_url = "/msg.ethereum";
    msg_create_vesting_account_url = "/msg.vesting";
    evm_params = λ _ _. 0;
    fee_market_params = λ _ _. 0;
    ante_handle = chained;
    chain_ante_decorators = nest chained;
  }

  abbrev pub laws_of : ChainLaws ante_of
  laws_of = record {
    check = check;
    handles = λ d next ctx tx sim. refl;
    chains = λ d ds ctx tx sim. refl;
  }

  abbrev pub pool_of : MempoolLib
  pool_of = record {
    O = ℤ;
    A = Option Ref;
    M = AnteHandler C ℕ × ℤ;
    AnteHandler = AnteHandler C ℕ;
    PoolConfig = Unit;
    GasLimit = Unit;
    Tip = Unit;
    CheckTxHandler = ℤ;
    ProposalHandler = ℤ;
    has_chain_config = true;
    get_cosmos_pool_max_tx = λ o. o;
    get_legacy_pool_config = λ _. tt;
    get_block_gas_limit = λ _. tt;
    get_min_tip = λ _. tt;
    new_experimental_evm_mempool = λ _ config max_tx. (config.ante_handler, max_tx);
    new_check_tx_handler = λ m. m.1;
    prepare_proposal_handler = λ m. m.1;
    join = λ _ e. e;
  }

  abbrev pub env_of : Env
  env_of = record {
    machine = record { range_keys = λ ks. ks; gomaxprocs = 8; num_cpu = 4 };
    register_streaming_services = ok tt;
    evm_chain_id = 19460;
    unsafe_skip_upgrades = pos 70 ∷ negsuc 0 ∷ [];
    new_tx_config_with_options = ok tt;
    manager = manager;
    register_services = ok tt;
    validate = λ o. required o.account_keeper o.bank_keeper;
    new_post_handler = ok tt;
    FeeMarketParams = ℕ;
    EvmParams = ℕ;
    Context = C;
    Body = ℕ;
    ante = ante_of;
    mempool = pool_of;
    opts = pos 5000;
    installed = λ h. h;
    no_handler = λ ctx tx sim. (ctx, none);
    parts = λ app. none;
    ProtoFiles = Unit;
    merged_registry = ok tt;
    validate_proto_annotations = λ _. err (foreign "service without annotation");
    load_latest_version = ok tt;
  }

  pub answers_of : (g : ℕ) (b : Bool) → Answers env_of g b
  unfolding set_module_orders ante_handler_options
  answers_of g b = record {
    streaming = refl;
    tx_config = refl;
    orders = orders;
    ordered = refl;
    services = refl;
    valid = refl;
    post = refl;
    files = tt;
    registry = refl;
    load = loads b;
  }

abbrev pub ante : AnteLib Ref ℕ ℕ Fees ℕ
ante = ante_of check

abbrev pub pool : MempoolLib
pool = pool_of check

abbrev pub env : Env
env = env_of check

pub answers : (g : ℕ) (b : Bool) → Answers env g b
answers = answers_of check
