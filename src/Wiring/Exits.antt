-- ===== src/Wiring/Exits.antt =====
-- When `NewApp` ends the process.
use sandbox_ledger.Base.{
  ℕ, ◌≡◌, refl, sym, ap, ◌∙◌, ◌≢◌, ◌↔◌, ◌⊎◌, inl, inr, Bool, true, false, List, ok, Outcome, exited,
  ◌>>=◌, bind_eq,
}
use sandbox_ledger.BaseSetup.{BaseOption}
use sandbox_ledger.Modules.{set_module_orders}
use sandbox_ledger.Mempool.{configure_evm_mempool}
use sandbox_ledger.Wiring.{App}
use sandbox_ledger.Wiring.Build.{
  Env, assemble, set_handlers, check_and_load, slots, mempool_or_panic, load_if, new_app,
}
use sandbox_ledger.Wiring.Answers.{assembled, handled}
use sandbox_ledger.Wiring.Complete.{assemble_eq, set_handlers_eq}
use sandbox_ledger.Wiring.Failing.{Fails, LoadFails, configured_eq, exits_inv}

bind_exited :
    {A B : Type 0} {n : ℕ} (m : Outcome A) (f : A → Outcome B) → m ≡ exited n → (m >>= f) ≡ exited n
bind_exited m f p = ap (λ m. m >>= f) p

module _ (e : Env) (g : ℕ) (opts : List BaseOption) where
  streaming_exits : (b : Bool) → Fails e.register_streaming_services → new_app e g b opts ≡ exited 1
  unfolding new_app assemble
  streaming_exits b (x, p) = rw p refl

  check_and_load_err :
      (files : e.ProtoFiles) (app : App)
      → e.merged_registry ≡ ok files
      → Fails e.load_latest_version
      → check_and_load e true app ≡ exited 1
  unfolding check_and_load load_if
  check_and_load_err files app registry (x, p) = rw (registry, p) refl

  loading_exits : (b : Bool) → LoadFails e g b → new_app e g b opts ≡ exited 1
  unfolding new_app
  loading_exits b (a, asked, fails) =
      let app = handled e opts g a.orders in
      let configured = configure_evm_mempool e.mempool e.opts (slots e app) in
      bind_eq (assemble e opts) _ (assemble_eq e g false opts a)
      ∙ bind_eq (set_handlers e g (assembled e opts a.orders)) _ (set_handlers_eq e g false opts a)
      ∙ bind_eq (mempool_or_panic configured) _ (configured_eq e app)
      ∙ bind_exited (check_and_load e b app) _
          (ap (λ b. check_and_load e b app) asked ∙ check_and_load_err a.files app a.registry fails)

  exits :
      (b : Bool)
      → Fails e.register_streaming_services ⊎ LoadFails e g b
      → new_app e g b opts ≡ exited 1
  exits b (inl fails) = streaming_exits b fails
  exits b (inr fails) = loading_exits b fails

-- `NewApp` ends the process with code 1, and with no other, and only in two ways: the streaming
-- services cannot be registered, or the latest version is asked for and cannot be loaded while
-- every call in front of it has answered as it is needed. That the module manager's setters do not
-- end the process themselves is a hypothesis.
pub new_app_exits :
    (e : Env) (g : ℕ) (b : Bool) (opts : List BaseOption) (n : ℕ)
    → set_module_orders e.manager ≢ exited n
    → (new_app e g b opts ≡ exited n)
      ↔ ((n ≡ 1) × (Fails e.register_streaming_services ⊎ LoadFails e g b))
new_app_exits e g b opts n orders_return = (
  exits_inv e g opts n b orders_return,
  λ (one, fails). exits e g opts b fails ∙ ap exited (sym one),
)
