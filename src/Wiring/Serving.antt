-- ===== src/Wiring/Serving.antt =====
-- The handlers of a finished application, and the mempool that it makes of them.
use mathlib.Core.Path.{subst}
use sandbox_ledger.Base.{
  ℕ, ◌≡◌, refl, sym, ap, ◌⊎◌, inl, inr, Bool, some, List, [], ◌∷◌, returned, Bool-cases,
}
use sandbox_ledger.Base.Int.{ℤ, is_negative}
use sandbox_ledger.Names.{poa}
use sandbox_ledger.Modules.{HookOrders}
use sandbox_ledger.Ante.{HandlerOptions, new_poa_evm_ante_handler}
use sandbox_ledger.BaseSetup.{BaseOption}
use sandbox_ledger.Mempool.{
  Slots, experimental, nil_interface, get_mempool, configure_evm_mempool, made,
}
use sandbox_ledger.Mempool.Laws.{IsWanted, IsUnwanted}
use sandbox_ledger.Wiring.{
  App, Ref, init_chainer, pre_blocker, begin_blocker, end_blocker, ante_handler, post_handler,
}
use sandbox_ledger.Wiring.Keepers.{make_keepers}
use sandbox_ledger.Wiring.Handlers.{mount_stores, set_hooks, ante_handler_options}
use sandbox_ledger.Wiring.Build.{set_configurator, Env, new_app, set_orders, slots, ante_handler_of}
use sandbox_ledger.Wiring.Accessors.{get_ante_handler, get_ante_handler-some}
use sandbox_ledger.Wiring.Answers.{handled, options}
use sandbox_ledger.Wiring.Complete.{new_app_inv}
use sandbox_ledger.Wiring.Final.{new_app-all}

module _ (e : Env) where
  abbrev pub max_tx : ℤ
  max_tx = e.mempool.get_cosmos_pool_max_tx e.opts

  -- A mempool that is made of the application's parts and of a handler, with the options' limits.
  abbrev pub made_with : e.mempool.A → e.mempool.AnteHandler → e.mempool.M
  made_with parts handler =
      e.mempool.new_experimental_evm_mempool parts
        (record {
          ante_handler = handler;
          legacy_pool_config = e.mempool.get_legacy_pool_config e.opts;
          block_gas_limit = e.mempool.get_block_gas_limit e.opts;
          min_tip = e.mempool.get_min_tip e.opts;
        })
        max_tx

  abbrev pub handler : HandlerOptions Ref → e.mempool.AnteHandler
  handler o = e.installed (new_poa_evm_ante_handler e.ante o)

-- What the base application is set up with.
pub record Serves (g : ℕ) (load_latest : Bool) (app : App) : Type 0 where
  pub ante_options : app.ante_options ≡ some (ante_handler_options g app)
  pub from_keepers : ante_handler_options g app ≡ options g
  pub fee_recipient : app.fee_recipient_module ≡ some poa
  pub hooks :
      app.hooks
      ≡ init_chainer ∷ pre_blocker ∷ begin_blocker ∷ end_blocker ∷ ante_handler ∷ post_handler ∷ []
  pub loaded : app.loaded ≡ load_latest

final-Serves :
    (e : Env) (g : ℕ) (b : Bool) (opts : List BaseOption) (r : App × Slots e.mempool)
    → new_app e g b opts ≡ returned r
    → Serves g b r.0
unfolding set_hooks mount_stores set_configurator set_orders make_keepers ante_handler_options
final-Serves =
    new_app-all (λ _ _. Serves)
      (λ e opts g orders b printed. record {
        ante_options = refl;
        from_keepers = refl;
        fee_recipient = refl;
        hooks = refl;
        loaded = refl;
      })

-- The handler and the mempool of the application that the ante handler is set on.
abbrev pub MempoolServes : (e : Env) → HandlerOptions Ref → Slots e.mempool → Type 0
MempoolServes e o s =
    (s.ante_handler ≡ handler e o)
    × (IsWanted e.mempool e.opts
          × ((parts : e.mempool.A) × (get_mempool e.mempool s
                ≡ experimental (some (made_with e parts (handler e o)))))
        ⊎ IsUnwanted e.mempool e.opts × (get_mempool e.mempool s ≡ nil_interface))

ante_handler_of-some :
    (e : Env) (app : App) (o : HandlerOptions Ref)
    → app.ante_options ≡ some o
    → ante_handler_of e app ≡ handler e o
unfolding ante_handler_of
ante_handler_of-some e app o set = rw set refl

configured-MempoolServes :
    (e : Env) (app : App) (o : HandlerOptions Ref)
    → app.ante_options ≡ some o
    → MempoolServes e o (configure_evm_mempool e.mempool e.opts (slots e app)).1
unfolding configure_evm_mempool slots made get_mempool
configured-MempoolServes e app o set =
    let same = ante_handler_of-some e app o set in
    elim (Bool-cases e.mempool.has_chain_config) [
      | inl chain ↦ elim (Bool-cases (is_negative (max_tx e))) [
        | inl off ↦ rw (chain, off) (same, inr (inr refl, refl))
        | inr on ↦
            rw (chain, on)
              (
                same,
                inl (
                  (refl, refl),
                  (e.parts app, ap (λ h. experimental (some (made_with e (e.parts app) h))) same),
                ),
              )
      ]
      | inr no_chain ↦ rw no_chain (same, inr (inl refl, refl))
    ]

handled-options :
    (e : Env) (opts : List BaseOption) (g : ℕ) (orders : HookOrders)
    → (handled e opts g orders).ante_options ≡ some (options g)
unfolding set_hooks mount_stores set_configurator set_orders make_keepers ante_handler_options
handled-options e opts g orders = refl

-- In the application that `NewApp` returns the SDK's fee recipient is POA, every hook of the base
-- application is set once, and the latest version is loaded exactly if that was asked for. The ante
-- handler is that of app/ante.go over the application's final keepers, and the mempool that
-- `GetMempool` answers, which is there exactly if the chain and the options want one, admits
-- transactions with this same handler.
pub new_app-Serves :
    (e : Env) (g : ℕ) (load_latest : Bool) (opts : List BaseOption) (r : App × Slots e.mempool)
    → new_app e g load_latest opts ≡ returned r
    → Serves g load_latest r.0 × MempoolServes e (ante_handler_options g r.0) r.1
new_app-Serves e g b opts r h =
    let serves = final-Serves e g b opts r h in
    let (a, p) = new_app_inv e g b opts r h in
    let at_options =
      configured-MempoolServes e (handled e opts g a.orders) (options g)
        (handled-options e opts g a.orders) in
    (
      serves,
      subst (λ o. MempoolServes e o r.1) (sym serves.from_keepers)
          (subst (MempoolServes e (options g)) (sym (ap (λ r. r.1) p)) at_options),
    )

-- What `GetAnteHandler` answers on the application that `NewApp` returns.
pub new_app-get_ante_handler :
    (e : Env) (g : ℕ) (load_latest : Bool) (opts : List BaseOption) (r : App × Slots e.mempool)
    → new_app e g load_latest opts ≡ returned r
    → get_ante_handler e r.0 ≡ some (new_poa_evm_ante_handler e.ante (ante_handler_options g r.0))
new_app-get_ante_handler e g b opts r h =
    get_ante_handler-some e r.0 (ante_handler_options g r.0)
      (final-Serves e g b opts r h).ante_options
