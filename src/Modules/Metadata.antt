-- ===== src/Modules/Metadata.antt =====
-- The state that `InitChainer` leaves from the genesis of `sandboxd init`: the bank holds the
-- metadata of the EVM's denom.
use mathlib.Core.List.{tail}
use mathlib.Core.Path.{subst}
use sandbox_ledger.Base.{
  String, ◌≡◌, true, Option, none, some, List, [], ◌∷◌, ok, Outcome, returned, >>=-eq-returned,
  bind_at, bind_panic_inv, or_panic, returned_inj, sym, ap, ◌∙◌,
}
use sandbox_ledger.Base.Lists.{All}
use sandbox_ledger.Names.{ModuleName, auth, bank}
use sandbox_ledger.Genesis.{BankGenesis, GenesisLib, GenesisState, init_genesis_state}
use sandbox_ledger.Genesis.Defaults.{GenesisLaws, init-bank}
use sandbox_ledger.Modules.{InitLib, init_chainer, genesis_module_order}
use sandbox_ledger.Modules.Boot.{BootLaws, run_part, run, All-last, base_lem}

module _ {l : GenesisLib} (i : InitLib l) (laws : BootLaws i) (genesis : GenesisState l) where
  open laws use {init, has_metadata}

  abbrev HasEvmMetadata : i.State → Type 0
  HasEvmMetadata s = has_metadata s l.default_params.evm_denom ≡ true

  -- A module that is run from a state, if it has a part in the genesis.
  run_part_inv :
      (m : ModuleName) (part : Option l.Raw) (rest : i.State → Outcome i.State) (s s' : i.State)
      → run_part init m part rest s ≡ returned s'
      → (t : i.State) × (rest t ≡ returned s') × (HasEvmMetadata s → HasEvmMetadata t)
  run_part_inv m none rest s s' h = (s, h, λ p. p)
  run_part_inv m (some raw) rest s s' h =
      let (t, done, after) = >>=-eq-returned (init m raw s) rest h in
      (t, after, laws.keeps m raw s t _ done)

  run_keeps :
      (order : List ModuleName) (s s' : i.State)
      → run init order genesis s ≡ returned s'
      → HasEvmMetadata s
      → HasEvmMetadata s'
  run_keeps [] s s' h had = subst HasEvmMetadata (sym (returned_inj h)) had
  run_keeps (m ∷ ms) s s' h had =
      let (t, after, kept) = run_part_inv m (genesis m) (run init ms genesis) s s' h in
      run_keeps ms t s' after (kept had)

  -- Once the bank has run, its metadata are there, and stay.
  run_bank :
      (raw : l.Raw) (gs : BankGenesis l.BankRest) (ms : List ModuleName) (s s' : i.State)
      → genesis bank ≡ some raw
      → l.must_unmarshal_bank raw ≡ returned gs
      → ((s : i.State)
          → All (λ m. has_metadata s m.base ≡ true) gs.denom_metadata
          → HasEvmMetadata s)
      → run init (bank ∷ ms) genesis s ≡ returned s'
      → HasEvmMetadata s'
  run_bank raw gs ms s s' part decoded covers h =
      let (t, done, after) =
        >>=-eq-returned (init bank raw s) (run init ms genesis) (rw part at h) in
      run_keeps ms t s' after (covers t (laws.bank_sets raw gs s t decoded done))

  run_in_order :
      (raw : l.Raw) (gs : BankGenesis l.BankRest) (s s' : i.State)
      → genesis bank ≡ some raw
      → l.must_unmarshal_bank raw ≡ returned gs
      → ((s : i.State)
          → All (λ m. has_metadata s m.base ≡ true) gs.denom_metadata
          → HasEvmMetadata s)
      → run init genesis_module_order genesis s ≡ returned s'
      → HasEvmMetadata s'
  unfolding genesis_module_order
  run_in_order raw gs s s' part decoded covers h =
      let (t, after, _) =
        run_part_inv auth (genesis auth) (run init (tail genesis_module_order) genesis) s s' h in
      run_bank raw gs (tail (tail genesis_module_order)) t s' part decoded covers after

-- What `sandboxd init` has written, and what the chain reads of it.
pub record Written (l : GenesisLib) (i : InitLib l) (bytes : i.Bytes) : Type 0 where
  pub raw : l.Raw
  pub upstream : BankGenesis l.BankRest
  pub genesis : GenesisState l
  pub basic : l.bank_default_genesis ≡ returned raw
  pub decoded : l.must_unmarshal_bank raw ≡ returned upstream
  pub written : init_genesis_state l ≡ returned genesis
  pub read_ok : i.unmarshal bytes ≡ ok genesis

-- What the manager makes of the last module's state keeps the bank's metadata.
abbrev pub FinishKeeps : {l : GenesisLib} {i : InitLib l} → BootLaws i → Type 0
FinishKeeps {i = i} laws =
    (s s' : i.State) (response : i.Response) (denom : String)
    → laws.finish s ≡ returned (ok response, s')
    → laws.has_metadata s denom ≡ true
    → laws.has_metadata s' denom ≡ true

pub init_chainer-has_metadata :
    {l : GenesisLib} (i : InitLib l) (laws : BootLaws i) (genesis_laws : GenesisLaws l)
    (bytes : i.Bytes) (ctx state : i.State) (response : i.Response)
    → FinishKeeps laws
    → Written l i bytes
    → init_chainer i bytes ctx ≡ returned (ok response, state)
    → laws.has_metadata state l.default_params.evm_denom ≡ true
unfolding init_chainer
init_chainer-has_metadata {l} i laws genesis_laws bytes ctx state response finish_keeps w h =
    let genesis = w.genesis in
    let h1 = bind_at (or_panic (i.unmarshal bytes)) _ (ap or_panic w.read_ok) h in
    let (s, _, h2) = bind_panic_inv (i.set_module_version_map ctx) _ h1 in
    let (t, ran, finished) =
      >>=-eq-returned (run laws.init genesis_module_order genesis s) laws.finish
        (sym (laws.in_order genesis_module_order genesis s) ∙ h2) in
    finish_keeps t state response l.default_params.evm_denom finished (
      run_in_order i laws genesis _ _ s t
        (init-bank genesis_laws w.basic w.decoded genesis w.written) (genesis_laws.bank_roundtrip _)
        (λ s all.
          subst (λ d. laws.has_metadata s d ≡ true) (base_lem l.default_params.evm_denom)
            (All-last _ w.upstream.denom_metadata _ all))
        ran)
