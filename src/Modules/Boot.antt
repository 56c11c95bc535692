-- ===== src/Modules/Boot.antt =====
-- The initial genesis of `sandboxd init` through `InitChainer`: when the EVM module's turn comes,
-- the bank holds the metadata of the EVM's denom.
use mathlib.Core.List.{tail}
use mathlib.Core.Path.{subst}
use sandbox_ledger.Base.{
  String, ◌≡◌, refl, ◌≢◌, Bool, true, false, Option, none, some, List, [], ◌∷◌, ◌++◌, Error, Result,
  ok, Outcome, returned, panicked, ◌>>=◌, arith,
}
use sandbox_ledger.Base.Lists.{All}
use sandbox_ledger.Names.{ModuleName, auth, bank, evm}
use sandbox_ledger.Genesis.{
  BankGenesis, GenesisLib, GenesisState, evm_bank_denom_metadata, init_genesis_state,
}
use sandbox_ledger.Genesis.Defaults.{GenesisLaws, init-bank}
use sandbox_ledger.Modules.{InitLib, init_chainer, genesis_module_order}

-- The modules' `InitGenesis` in an order, over states `S`.
module _ {Raw S : Type 0} (init : ModuleName → Raw → S → Outcome S) where
  -- A module without a part in the genesis is passed over.
  abbrev pub run_part : ModuleName → Option Raw → (S → Outcome S) → S → Outcome S
  run_part m none rest s = rest s
  run_part m (some raw) rest s = init m raw s >>= rest

  abbrev pub run : List ModuleName → (ModuleName → Option Raw) → S → Outcome S
  run [] genesis s = returned s
  run (m ∷ ms) genesis s = run_part m (genesis m) (run ms genesis) s

module _ {l : GenesisLib} (i : InitLib l) where
  -- What the module manager and the modules are documented to do at the start of a chain.
  pub record BootLaws : Type 0 where
    -- a module's `InitGenesis`
    pub init : ModuleName → l.Raw → i.State → Outcome i.State
    -- what the manager makes of the state after the last module
    pub finish : i.State → Outcome (Result i.Response × i.State)
    pub in_order :
        (order : List ModuleName) (genesis : GenesisState l) (s : i.State)
        → i.init_genesis order genesis s ≡ (run init order genesis s >>= finish)
    -- whether the bank has metadata for a denom
    pub has_metadata : i.State → String → Bool
    pub bank_sets :
        (raw : l.Raw) (gs : BankGenesis l.BankRest) (s s' : i.State)
        → l.must_unmarshal_bank raw ≡ returned gs
        → init bank raw s ≡ returned s'
        → All (λ m. has_metadata s' m.base ≡ true) gs.denom_metadata
    pub keeps :
        (m : ModuleName) (raw : l.Raw) (s s' : i.State) (denom : String)
        → init m raw s ≡ returned s'
        → has_metadata s denom ≡ true
        → has_metadata s' denom ≡ true
    -- the panic of the EVM module over missing metadata, and its only cause
    pub missing_metadata : Error
    pub evm_misses :
        (raw : l.Raw) (s : i.State)
        → init evm raw s ≡ panicked missing_metadata
        → has_metadata s l.default_params.evm_denom ≡ false
    pub others_miss_nothing :
        (m : ModuleName) (raw : l.Raw) (s : i.State)
        → m ≢ evm
        → init m raw s ≢ panicked missing_metadata
    pub finish_misses_nothing : (s : i.State) → finish s ≢ panicked missing_metadata

  module _ (laws : BootLaws) (genesis : GenesisState l) where
    open laws use {init, has_metadata, missing_metadata}

    abbrev Ready : i.State → Type 0
    Ready s = has_metadata s l.default_params.evm_denom ≡ true

    -- No module misses metadata once the bank has them.
    module-Ready :
        (m : ModuleName) (raw : l.Raw) (s : i.State)
        → Ready s
        → init m raw s ≢ panicked missing_metadata
    module-Ready evm raw s ready p = cc (laws.evm_misses raw s p)
    module-Ready m raw s ready p = laws.others_miss_nothing m raw s (λ e. cc) p

    bind-ne :
        {B : Type 0} (r : Outcome i.State) (f : i.State → Outcome B)
        → r ≢ panicked missing_metadata
        → ((s : i.State) → r ≡ returned s → f s ≢ panicked missing_metadata)
        → (r >>= f) ≢ panicked missing_metadata
    bind-ne (returned s) f first later p = later s refl p
    bind-ne (panicked e) f first later p = first (ground arith)
    bind-ne (Outcome.exited n) f first later p = cc

    abbrev Misses : Outcome i.State → Type 0
    Misses r = r ≡ panicked missing_metadata

    run_part-Ready :
        (m : ModuleName) (part : Option l.Raw) (rest : i.State → Outcome i.State)
        → ((s : i.State) → Ready s → ¬ Misses (rest s))
        → (s : i.State) → Ready s
        → ¬ Misses (run_part init m part rest s)
    run_part-Ready m none rest later s ready = later s ready
    run_part-Ready m (some raw) rest later s ready =
        bind-ne (init m raw s) rest (module-Ready m raw s ready)
          (λ s' done. later s' (laws.keeps m raw s s' _ done ready))

    run-Ready :
        (order : List ModuleName) (s : i.State) → Ready s → ¬ Misses (run init order genesis s)
    run-Ready [] s ready p = cc
    run-Ready (m ∷ ms) s ready p =
        run_part-Ready m (genesis m) (run init ms genesis) (run-Ready ms) s ready p

    -- A module in front of the bank misses nothing, and the rest goes on from some state.
    run_part-before :
        (m : ModuleName) (part : Option l.Raw) (rest : i.State → Outcome i.State)
        → m ≢ evm
        → ((s : i.State) → ¬ Misses (rest s))
        → (s : i.State) → ¬ Misses (run_part init m part rest s)
    run_part-before m none rest other later s = later s
    run_part-before m (some raw) rest other later s =
        bind-ne (init m raw s) rest (laws.others_miss_nothing m raw s other) (λ s' _. later s')

    -- Once the bank has run, its metadata are there.
    run-bank :
        (raw : l.Raw) (gs : BankGenesis l.BankRest) (ms : List ModuleName)
        → genesis bank ≡ some raw
        → l.must_unmarshal_bank raw ≡ returned gs
        → ((s : i.State) → All (λ m. has_metadata s m.base ≡ true) gs.denom_metadata → Ready s)
        → (s : i.State) → ¬ Misses (run init (bank ∷ ms) genesis s)
    run-bank raw gs ms part decoded covers s = rw part (
        bind-ne (init bank raw s) (run init ms genesis)
          (laws.others_miss_nothing bank raw s (λ e. cc))
          (λ s' done. run-Ready ms s' (covers s' (laws.bank_sets raw gs s s' decoded done))))

    run-genesis_module_order :
        (raw : l.Raw) (gs : BankGenesis l.BankRest)
        → genesis bank ≡ some raw
        → l.must_unmarshal_bank raw ≡ returned gs
        → ((s : i.State) → All (λ m. has_metadata s m.base ≡ true) gs.denom_metadata → Ready s)
        → (s : i.State) → ¬ Misses (run init genesis_module_order genesis s)
    unfolding genesis_module_order
    run-genesis_module_order raw gs part decoded covers =
        run_part-before auth (genesis auth) (run init (tail genesis_module_order) genesis) (λ e. cc)
          (run-bank raw gs (tail (tail genesis_module_order)) part decoded covers)

pub All-last {ℓ κ} :
    {A : Type ℓ} (P : A → Type κ) (xs : List A) (x : A) → All P (xs ++ x ∷ []) → P x
All-last P [] x h = h.0
All-last P (y ∷ xs) x h = All-last P xs x h.1

pub base_lem : (d : String) → (evm_bank_denom_metadata d).base ≡ d
unfolding evm_bank_denom_metadata
base_lem d = refl

-- A chain that starts from the genesis that `sandboxd init` writes, through the application's
-- `InitChainer`, does not panic because the EVM module finds no metadata for its denom: the bank
-- has them when the EVM module's turn comes.
pub init_chainer-metadata :
    {l : GenesisLib} (i : InitLib l) (laws : BootLaws i) (genesis_laws : GenesisLaws l)
    (raw : l.Raw) (upstream : BankGenesis l.BankRest) (genesis : GenesisState l) (bytes : i.Bytes)
    (ctx ctx' : i.State)
    → l.bank_default_genesis ≡ returned raw
    → l.must_unmarshal_bank raw ≡ returned upstream
    → init_genesis_state l ≡ returned genesis
    → i.unmarshal bytes ≡ ok genesis
    → i.set_module_version_map ctx ≡ ok ctx'
    → init_chainer i bytes ctx ≢ panicked laws.missing_metadata
unfolding init_chainer
init_chainer-metadata {l} i laws genesis_laws raw upstream genesis bytes ctx ctx' basic decoded
      written read_ok versions =
    rw (read_ok, versions, laws.in_order genesis_module_order genesis ctx')
      (bind-ne i laws genesis (run laws.init genesis_module_order genesis ctx') laws.finish
        (run-genesis_module_order i laws genesis _ _
          (init-bank genesis_laws basic decoded genesis written) (genesis_laws.bank_roundtrip _)
          (λ s all.
            subst (λ d. laws.has_metadata s d ≡ true) (base_lem l.default_params.evm_denom)
              (All-last _ upstream.denom_metadata _ all))
          ctx')
        (λ s _. laws.finish_misses_nothing s))
