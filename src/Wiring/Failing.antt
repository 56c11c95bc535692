-- ===== src/Wiring/Failing.antt =====
-- What must have failed where `NewApp` has ended the process.
use sandbox_ledger.Base.{
  ℕ, ◌≡◌, refl, sym, ap, ◌∙◌, ◌≢◌, ◌⊎◌, inl, inr, Bool, true, false, List, Error, Result, ok, err,
  Outcome, returned, panicked, exited, ◌>>=◌, or_panic, or_exit, >>=-eq-exited, bind_at,
  not_exited_or_panic, or_panic_inv,
}
use sandbox_ledger.BaseSetup.{BaseOption}
use sandbox_ledger.Modules.{HookOrders, set_module_orders}
use sandbox_ledger.Mempool.{configure_evm_mempool}
use sandbox_ledger.Wiring.{App}
use sandbox_ledger.Wiring.Handlers.{ante_handler_options, set_ante_handler, set_post_handler}
use sandbox_ledger.Wiring.Build.{
  Env, assemble, set_handlers, check_and_load, slots, mempool_or_panic, load_if, new_app,
}
use sandbox_ledger.Wiring.Answers.{
  Answers, assembled, options, handled, configure_fst, mempool_or_panic_eq,
}
use sandbox_ledger.Wiring.Complete.{assemble_inv, set_handlers_inv}

abbrev pub Fails : Result (Unit {0}) → Type 0
Fails r = (x : Error) × (r ≡ err x)

or_exit_exited : (r : Result (Unit {0})) (n : ℕ) → or_exit r ≡ exited n → (n ≡ 1) × Fails r
or_exit_exited (ok a) n h = cc
or_exit_exited (err x) n h = (cc, (x, refl))

-- Everything is answered as it is needed, but the latest version, asked for, cannot be loaded.
abbrev pub LoadFails : Env → ℕ → Bool → Type 0
LoadFails e g b = Answers e g false × (b ≡ true) × Fails e.load_latest_version

pub configured_eq :
    (e : Env) (app : App)
    → mempool_or_panic (configure_evm_mempool e.mempool e.opts (slots e app))
      ≡ returned (configure_evm_mempool e.mempool e.opts (slots e app)).1
configured_eq e app =
    mempool_or_panic_eq (configure_evm_mempool e.mempool e.opts (slots e app))
      (configure_fst e.mempool e.opts (slots e app))

module _ (e : Env) (g : ℕ) (opts : List BaseOption) (n : ℕ) where
  bind_ne_exited :
      {A B : Type 0} (m : Outcome A) (f : A → Outcome B)
      → m ≢ exited n
      → ((a : A) → f a ≢ exited n)
      → (m >>= f) ≢ exited n
  bind_ne_exited m f first later h = elim (>>=-eq-exited m f h) [
    | inl exit ↦ first exit
    | inr (a, _, exit) ↦ later a exit
  ]

  -- What `assemble` does behind the state streaming, whatever it returns.
  ordered_ne_exited :
      (f : HookOrders → Unit → App)
      → set_module_orders e.manager ≢ exited n
      → (or_panic e.new_tx_config_with_options >>= λ _. set_module_orders e.manager >>= λ orders.
          or_panic e.register_services >>= λ done. returned (f orders done))
        ≢ exited n
  ordered_ne_exited f orders_return =
      bind_ne_exited (or_panic e.new_tx_config_with_options) _
        (not_exited_or_panic e.new_tx_config_with_options)
        (λ _. bind_ne_exited (set_module_orders e.manager) _ orders_return (λ _.
          bind_ne_exited (or_panic e.register_services) _ (not_exited_or_panic e.register_services)
            (λ _ h. cc)))

  assemble_exited :
      set_module_orders e.manager ≢ exited n
      → assemble e opts ≡ exited n
      → (n ≡ 1) × Fails e.register_streaming_services
  unfolding assemble
  assemble_exited orders_return h =
      elim (>>=-eq-exited (or_exit e.register_streaming_services) _ h) [
        | inl exit ↦ or_exit_exited e.register_streaming_services n exit
        | inr (_, _, h1) ↦ absurd (ordered_ne_exited _ orders_return h1)
      ]

  set_handlers_ne_exited : (app : App) → set_handlers e g app ≢ exited n
  unfolding set_handlers set_ante_handler set_post_handler ante_handler_options
  set_handlers_ne_exited app =
      bind_ne_exited (set_ante_handler e.validate g app) _
        (bind_ne_exited (or_panic (e.validate _)) _ (not_exited_or_panic (e.validate _))
          (λ _ h. cc))
        (λ with_ante.
          bind_ne_exited (or_panic e.new_post_handler) _ (not_exited_or_panic e.new_post_handler)
            (λ _ h. cc))

  load_if_exited :
      (b : Bool) (load : Result (Unit {0})) (app : App)
      → load_if b load app ≡ exited n
      → (b ≡ true) × (n ≡ 1) × Fails load
  unfolding load_if
  load_if_exited false load app h = cc
  load_if_exited true load app h = elim (>>=-eq-exited (or_exit load) _ h) [
    | inl exit ↦ let (one, fails) = or_exit_exited load n exit in (refl, one, fails)
    | inr (_, _, h1) ↦ cc
  ]

  check_and_load_exited :
      (b : Bool) (app : App)
      → check_and_load e b app ≡ exited n
      → ((files : e.ProtoFiles) × (e.merged_registry ≡ ok files))
        × (b ≡ true)
        × (n ≡ 1)
        × Fails e.load_latest_version
  unfolding check_and_load
  check_and_load_exited b app h = elim (>>=-eq-exited (or_panic e.merged_registry) _ h) [
    | inl exit ↦ absurd (not_exited_or_panic e.merged_registry exit)
    | inr (files, p, h1) ↦
        let (asked, one, fails) = load_if_exited b e.load_latest_version _ h1 in
        ((files, or_panic_inv e.merged_registry p), asked, one, fails)
  ]

  -- `NewApp` with everything set but the proto annotations checked and the version loaded.
  load_exits :
      (b : Bool) (orders : HookOrders)
      → e.register_streaming_services ≡ ok tt
      → e.new_tx_config_with_options ≡ ok tt
      → set_module_orders e.manager ≡ returned orders
      → e.register_services ≡ ok tt
      → e.validate (options g) ≡ ok tt
      → e.new_post_handler ≡ ok tt
      → (check_and_load e b (handled e opts g orders) ≡ exited n)
      → (n ≡ 1) × LoadFails e g b
  load_exits b orders streaming tx_config ordered services valid post h =
      let ((files, registry), asked, one, fails) = check_and_load_exited b _ h in
      let answers : Answers e g false = record {
        streaming = streaming;
        tx_config = tx_config;
        orders = orders;
        ordered = ordered;
        services = services;
        valid = valid;
        post = post;
        files = files;
        registry = registry;
        load = tt;
      } in
      (one, (answers, asked, fails))

  -- The last of the binds only pairs the application with its mempool.
  paired_exited :
      {A B : Type 0} (m : Outcome A) (f : A → B)
      → (m >>= λ a. returned (f a)) ≡ exited n
      → m ≡ exited n
  paired_exited (returned a) f h = cc
  paired_exited (panicked x) f h = cc
  paired_exited (exited k) f h = cc

  assembled_exits :
      (b : Bool) (app : App)
      → assemble e opts ≡ returned app
      → new_app e g b opts ≡ exited n
      → (n ≡ 1) × LoadFails e g b
  unfolding new_app
  assembled_exits b app p h =
      let (streaming, tx_config, orders, ordered, services, q) = assemble_inv e opts app p in
      let h1 = bind_at (assemble e opts) _ (p ∙ ap returned q) h in
      elim (>>=-eq-exited (set_handlers e g (assembled e opts orders)) _ h1) [
        | inl exit ↦ absurd (set_handlers_ne_exited _ exit)
        | inr (done, p1, h2) ↦
            let (valid, post, q1) = set_handlers_inv e opts g orders done p1 in
            let h3 =
              bind_at (mempool_or_panic (configure_evm_mempool e.mempool e.opts (slots e done))) _
                (configured_eq e done) h2 in
            let exit = paired_exited (check_and_load e b done) _ h3 in
            load_exits b orders streaming tx_config ordered services valid post
              (ap (check_and_load e b) (sym q1) ∙ exit)
      ]

  pub exits_inv :
      (b : Bool)
      → set_module_orders e.manager ≢ exited n
      → new_app e g b opts ≡ exited n
      → (n ≡ 1) × (Fails e.register_streaming_services ⊎ LoadFails e g b)
  unfolding new_app
  exits_inv b orders_return h = elim (>>=-eq-exited (assemble e opts) _ h) [
    | inl exit ↦ let (one, fails) = assemble_exited orders_return exit in (one, inl fails)
    | inr (app, p, _) ↦ let (one, fails) = assembled_exits b app p h in (one, inr fails)
  ]
