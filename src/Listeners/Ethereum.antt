-- ===== src/Listeners/Ethereum.antt =====
-- The listeners of the application that `NewApp` returns, and the Ethereum transactions that its
-- ante handler accepts.
mod Tests
use mathlib.Core.List.{foldl}
use mathlib.Core.Path.{subst}
use sandbox_ledger.Base.{
  ℕ, ◌≡◌, refl, sym, ap, ◌∙◌, Bool, true, false, Option, none, some, List, [], ◌∷◌, Error, returned,
  some_inj, arith, eq_iff,
}
use sandbox_ledger.BaseSetup.{BaseOption}
use sandbox_ledger.Ante.{
  Tx, AnteHandler, Decorator, first_extension, evm_decorators, new_evm_ante_handler,
  new_poa_evm_ante_handler,
}
use sandbox_ledger.Ante.Routing.{passes_evm_chain}
use sandbox_ledger.Ante.Chain.{ChainLaws, check_all, chain-check_all, check_all-cons}
use sandbox_ledger.Mempool.{Slots}
use sandbox_ledger.Wiring.{App, Ref, callable}
use sandbox_ledger.Wiring.Handlers.{ante_handler_options}
use sandbox_ledger.Wiring.Build.{Env, new_app}
use sandbox_ledger.Wiring.Accessors.{get_ante_handler, get_ante_handler-some}
use sandbox_ledger.Wiring.Serving.{new_app-get_ante_handler}
use sandbox_ledger.Listeners.{
  Listener, on_pending_tx, register_pending_tx_listener, on_pending_tx-register_all,
}

module _ {Hash W : Type 0} where
  -- Each hash is told to the application's listeners.
  abbrev pub tell : List (Listener Hash W) → List Hash → W → W
  tell listeners hashes w = foldl (λ world hash. on_pending_tx listeners hash world) w hashes

  -- The listeners that are there after a list of registrations.
  abbrev pub registered : List (Listener Hash W) → List (Listener Hash W)
  registered new = foldl register_pending_tx_listener [] new

  tell-registered :
      (new : List (Listener Hash W)) (hashes : List Hash) (w : W)
      → tell (registered new) hashes w
        ≡ foldl (λ world hash. foldl (λ world l. l hash world) world new) w hashes
  unfolding on_pending_tx
  tell-registered new [] w = refl
  tell-registered new (hash ∷ hashes) w =
      rw (on_pending_tx-register_all new [] hash w) (tell-registered new hashes _)

module _ (e : Env) (laws : ChainLaws e.ante) (Hash W : Type 0) where
  -- What the two decorators of the EVM chain are documented to do with the world on which the
  -- listeners act: the listener decorator tells the function that it was given, here `onPendingTx`,
  -- of the Ethereum messages of a transaction that is checked for the first time, and the other
  -- tells no one.
  pub record Tells (listeners : List (Listener Hash W)) : Type 0 where
    pub world : e.Context → W
    pub hashes : Option (Tx e.Body) → List Hash
    pub is_check : e.Context → Bool
    pub told :
        (tx : Option (Tx e.Body)) (ctx ctx' : e.Context)
        → is_check ctx ≡ true
        → laws.check (Decorator.tx_listener (some (callable "onPendingTx"))) ctx tx false
          ≡ (ctx', none)
        → world ctx' ≡ tell listeners (hashes tx) (world ctx)
    pub mono_keeps :
        (accounts market evm : Option Ref) (gas : ℕ) (v : e.EvmParams) (f : e.FeeMarketParams)
        (tx : Option (Tx e.Body)) (ctx ctx' : e.Context)
        → laws.check (Decorator.evm_mono accounts market evm gas v f) ctx tx false ≡ (ctx', none)
        → (world ctx' ≡ world ctx) × (is_check ctx' ≡ is_check ctx)

  -- The EVM chain of an application's options, when it accepts a transaction that is checked.
  evm_chain-tells :
      (g : ℕ) (app : App) (listeners : List (Listener Hash W)) (t : Tells listeners)
      (tx : Option (Tx e.Body)) (ctx ctx' : e.Context)
      → t.is_check ctx ≡ true
      → new_evm_ante_handler e.ante ctx (ante_handler_options g app) ctx tx false ≡ (ctx', none)
      → t.world ctx' ≡ tell listeners (t.hashes tx) (t.world ctx)
  unfolding new_evm_ante_handler evm_decorators ante_handler_options
  evm_chain-tells g app listeners t tx ctx ctx' check accepted =
      let (c, mono, later) =
        check_all-cons laws.check tx false _
          (Decorator.tx_listener (some (callable "onPendingTx")) ∷ []) ctx
          (sym (chain-check_all laws _ _ ctx tx false) ∙ accepted) in
      let (c', told, done) = check_all-cons laws.check tx false _ [] c later in
      let (same_world, same_mode) = t.mono_keeps _ _ _ _ _ _ tx ctx c mono in
      ap t.world (sym (ap (λ r. r.0) done))
      ∙ t.told tx c c' (same_mode ∙ check) told
      ∙ ap (tell listeners (t.hashes tx)) same_world

  -- An Ethereum transaction that the ante handler of the application returned by `NewApp` accepts,
  -- when it is first checked, if the listener decorator tells the function that it was given of each
  -- hash, and the decorator in front of it tells no one: each of its hashes, in order, is told to each listener that was
  -- registered on the application, once and in the order of the registrations, and nothing else
  -- happens to the world on which the listeners act.
  pub new_app-tells :
      (g : ℕ) (b : Bool) (opts : List BaseOption) (r : App × Slots e.mempool)
      → new_app e g b opts ≡ returned r
      → (new : List (Listener Hash W)) (t : Tells (registered new))
        (handler : AnteHandler e.Context e.Body) (tx : Option (Tx e.Body)) (ctx ctx' : e.Context)
      → get_ante_handler e r.0 ≡ some handler
      → first_extension tx ≡ some e.ante.ethereum_tx_url
      → t.is_check ctx ≡ true
      → handler ctx tx false ≡ (ctx', none)
      → t.world ctx'
        ≡ foldl
            (λ world hash. foldl (λ world l. l hash world) world new)
            (t.world ctx)
            (t.hashes tx)
  new_app-tells g b opts r h new t handler tx ctx ctx' set eth check accepted =
      let o = ante_handler_options g r.0 in
      let is_poa = some_inj (sym set ∙ new_app-get_ante_handler e g b opts r h) in
      evm_chain-tells g r.0 (registered new) t tx ctx ctx' check (
        sym (passes_evm_chain e.ante o ctx tx false eth)
        ∙ sym (ap (λ f. f ctx tx false) is_poa)
        ∙ accepted)
      ∙ tell-registered new (t.hashes tx) (t.world ctx)
