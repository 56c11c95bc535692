-- ===== src/Wiring/Complete.antt =====
-- When `NewApp` returns, and the application that it then returns.
use sandbox_ledger.Base.{
  ℕ, ◌≡◌, refl, ap, sym, ◌∙◌, ◌↔◌, Bool, true, false, List, Result, ok, ◌||◌, returned, ◌>>=◌,
  or_panic, bind_panic_inv, bind_exit_inv, returned_inj, bind_at, bind_eq, >>=-eq-returned,
}
use sandbox_ledger.BaseSetup.{BaseOption}
use sandbox_ledger.Modules.{HookOrders, set_module_orders}
use sandbox_ledger.Mempool.{Slots, configure_evm_mempool}
use sandbox_ledger.Wiring.{App}
use sandbox_ledger.Wiring.Handlers.{ante_handler_options, set_ante_handler, set_post_handler}
use sandbox_ledger.Wiring.Build.{
  Env, assemble, set_handlers, check_and_load, slots, mempool_or_panic, load_if, new_app,
}
use sandbox_ledger.Wiring.Answers.{
  configure_fst, mempool_or_panic_eq, Loads, assembled, options, options_eq, with_ante, with_post,
  handled, checked, Answers, result,
}

pub assemble_inv :
    (e : Env) (opts : List BaseOption) (app : App)
    → assemble e opts ≡ returned app
    → (e.register_streaming_services ≡ ok tt)
      × (e.new_tx_config_with_options ≡ ok tt)
      × (orders : HookOrders) × (set_module_orders e.manager ≡ returned orders)
      × (e.register_services ≡ ok tt)
      × (app ≡ assembled e opts orders)
unfolding assemble
assemble_inv e opts app h =
    let (_, p, h1) = bind_exit_inv e.register_streaming_services _ h in
    let (_, t, h0) = bind_panic_inv e.new_tx_config_with_options _ h1 in
    let (o, q, h2) = >>=-eq-returned (set_module_orders e.manager) _ h0 in
    let (_, s, h3) = bind_panic_inv e.register_services _ h2 in (p, t, o, q, s, returned_inj h3)

pub set_handlers_inv :
    (e : Env) (opts : List BaseOption) (g : ℕ) (orders : HookOrders) (app : App)
    → set_handlers e g (assembled e opts orders) ≡ returned app
    → (e.validate (options g) ≡ ok tt)
      × (e.new_post_handler ≡ ok tt)
      × (app ≡ handled e opts g orders)
unfolding set_handlers set_ante_handler set_post_handler ante_handler_options
set_handlers_inv e opts g orders app h =
    let (_, p, h1) =
      >>=-eq-returned (set_ante_handler e.validate g (assembled e opts orders)) _ h in
    let (_, q, h2) =
      bind_panic_inv (e.validate (ante_handler_options g (assembled e opts orders))) _ p in
    let (_, s, h3) = bind_panic_inv e.new_post_handler _ h1 in
    (
      ap e.validate (sym (options_eq e opts orders g)) ∙ q,
      s,
      returned_inj h3 ∙ ap with_post (returned_inj h2),
    )

load_if_inv :
    (b : Bool) (load : Result (Unit {0})) (app app' : App)
    → load_if b load app ≡ returned app'
    → Loads b load × (app' ≡ record app { loaded = b || app.loaded })
unfolding load_if
load_if_inv false load app app' h = (tt, returned_inj h)
load_if_inv true load app app' h = let (_, p, h1) = bind_exit_inv load _ h in (p, returned_inj h1)

check_and_load_inv :
    (e : Env) (b : Bool) (app app' : App)
    → check_and_load e b app ≡ returned app'
    → (files : e.ProtoFiles) × (e.merged_registry ≡ ok files)
      × Loads b e.load_latest_version
      × (app' ≡ checked e b files app)
unfolding check_and_load
check_and_load_inv e b app app' h =
    let (files, p, h1) = bind_panic_inv e.merged_registry _ h in
    let (l, q) = load_if_inv b e.load_latest_version _ app' h1 in (files, p, l, q)

pub new_app_inv :
    (e : Env) (g : ℕ) (b : Bool) (opts : List BaseOption) (r : App × Slots e.mempool)
    → new_app e g b opts ≡ returned r
    → (a : Answers e g b) × (r ≡ result e g b opts a)
unfolding new_app
new_app_inv e g b opts r h =
    let (made, p, _) = >>=-eq-returned (assemble e opts) _ h in
    let (streaming, tx_config, orders, ordered, services, q) = assemble_inv e opts made p in
    let h1 = bind_at (assemble e opts) _ (p ∙ ap returned q) h in
    let (done, p1, _) = >>=-eq-returned (set_handlers e g (assembled e opts orders)) _ h1 in
    let (valid, post, q1) = set_handlers_inv e opts g orders done p1 in
    let h2 = bind_at (set_handlers e g (assembled e opts orders)) _ (p1 ∙ ap returned q1) h1 in
    let configured = configure_evm_mempool e.mempool e.opts (slots e (handled e opts g orders)) in
    let h3 =
      bind_at (mempool_or_panic configured) _
        (mempool_or_panic_eq configured
          (configure_fst e.mempool e.opts (slots e (handled e opts g orders))))
        h2 in
    let (last, p2, h4) = >>=-eq-returned (check_and_load e b (handled e opts g orders)) _ h3 in
    let (files, registry, load, q2) = check_and_load_inv e b (handled e opts g orders) last p2 in
    (
      record {
        streaming = streaming;
        tx_config = tx_config;
        orders = orders;
        ordered = ordered;
        services = services;
        valid = valid;
        post = post;
        files = files;
        registry = registry;
        load = load;
      },
      returned_inj h4 ∙ ap (λ app. (app, configured.1)) q2,
    )

load_if_eq :
    (b : Bool) (load : Result (Unit {0})) (app : App)
    → Loads b load
    → load_if b load app ≡ returned (record app { loaded = b || app.loaded })
unfolding load_if
load_if_eq false load app h = refl
load_if_eq true load app h = rw h refl

module _ (e : Env) (g : ℕ) (b : Bool) (opts : List BaseOption) (a : Answers e g b) where
  pub assemble_eq : assemble e opts ≡ returned (assembled e opts a.orders)
  unfolding assemble
  assemble_eq = rw (a.streaming, a.tx_config, a.ordered, a.services) refl

  set_ante_handler_eq :
      set_ante_handler e.validate g (assembled e opts a.orders)
      ≡ returned (with_ante g (assembled e opts a.orders))
  unfolding set_ante_handler ante_handler_options
  set_ante_handler_eq =
      ap (λ r. or_panic r >>= λ _. returned (with_ante g (assembled e opts a.orders)))
        (ap e.validate (options_eq e opts a.orders g) ∙ a.valid)

  set_post_handler_eq :
      (app : App) → set_post_handler e.new_post_handler app ≡ returned (with_post app)
  unfolding set_post_handler
  set_post_handler_eq app = rw a.post refl

  pub set_handlers_eq :
      set_handlers e g (assembled e opts a.orders) ≡ returned (handled e opts g a.orders)
  unfolding set_handlers
  set_handlers_eq =
      bind_eq (set_ante_handler e.validate g (assembled e opts a.orders)) _ set_ante_handler_eq
      ∙ set_post_handler_eq (with_ante g (assembled e opts a.orders))

  check_and_load_eq :
      check_and_load e b (handled e opts g a.orders)
      ≡ returned (checked e b a.files (handled e opts g a.orders))
  unfolding check_and_load
  check_and_load_eq =
      bind_eq (or_panic e.merged_registry) _ (ap or_panic a.registry)
      ∙ load_if_eq b e.load_latest_version _ a.load

  pub new_app_eq : new_app e g b opts ≡ returned (result e g b opts a)
  unfolding new_app
  new_app_eq =
      let configured =
        configure_evm_mempool e.mempool e.opts (slots e (handled e opts g a.orders)) in
      bind_eq (assemble e opts) _ assemble_eq
      ∙ bind_eq (set_handlers e g (assembled e opts a.orders)) _ set_handlers_eq
      ∙ bind_eq (mempool_or_panic configured) _
          (mempool_or_panic_eq configured (configure_fst e.mempool e.opts _))
      ∙ bind_eq (check_and_load e b (handled e opts g a.orders)) _ check_and_load_eq

-- `NewApp` returns an application exactly if state streaming can be registered, the transaction
-- configuration with the textual sign mode can be made, the modules' orders
-- and services are accepted, the ante handler's options are valid, the post handler can be made,
-- the proto files can be merged, and the latest version can be loaded where that is asked for. It
-- does so also if the proto annotations are invalid, which it only prints, and the application is
-- then the one that has all the keepers, handlers and stores and the configured mempool.
pub new_app_iff :
    (e : Env) (g : ℕ) (b : Bool) (opts : List BaseOption) (r : App × Slots e.mempool)
    → (new_app e g b opts ≡ returned r) ↔ (a : Answers e g b) × (r ≡ result e g b opts a)
new_app_iff e g b opts r =
    (new_app_inv e g b opts r, λ (a, p). new_app_eq e g b opts a ∙ ap returned (sym p))
