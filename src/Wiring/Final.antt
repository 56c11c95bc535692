-- ===== src/Wiring/Final.antt =====
-- The application that `NewApp` returns, field by field.
use mathlib.Core.Path.{subst}
use sandbox_ledger.Base.{
  ℕ, ◌≡◌, refl, sym, ap, ◌∙◌, Bool, false, ◌||◌, List, Error, Result, ok, err, returned, arith,
}
use sandbox_ledger.BaseSetup.{BaseOption}
use sandbox_ledger.Modules.{HookOrders}
use sandbox_ledger.Mempool.{Slots}
use sandbox_ledger.Wiring.{App}
use sandbox_ledger.Wiring.Keepers.{make_keepers}
use sandbox_ledger.Wiring.Handlers.{mount_stores, set_hooks}
use sandbox_ledger.Wiring.Build.{set_configurator, Env, new_app, print_error, set_orders}
use sandbox_ledger.Wiring.Answers.{handled}
use sandbox_ledger.Wiring.Complete.{new_app_inv}

-- With what the module manager's orders were, and what was printed.
abbrev pub final : Env → List BaseOption → ℕ → HookOrders → Bool → List Error → App
final e opts g orders b printed = record (handled e opts g orders) { loaded = b; printed = printed }

print_error-printed :
    (r : Result (Unit {0})) (app : App)
    → (printed : List Error) × (print_error r app ≡ record app { printed = printed })
unfolding print_error
print_error-printed (ok _) app = (app.printed, refl)
print_error-printed (err e) app = (_, refl)

handled-loaded :
    (e : Env) (opts : List BaseOption) (g : ℕ) (orders : HookOrders)
    → (handled e opts g orders).loaded ≡ false
unfolding set_hooks mount_stores set_configurator set_orders make_keepers
handled-loaded e opts g orders = refl

or-false : (b c : Bool) → c ≡ false → (b || c) ≡ b
or-false b c h = ground arith

-- What holds of each application that `NewApp` may make holds of the one that it returns.
pub new_app-all {κ} :
    (P : Env → List BaseOption → ℕ → Bool → App → Type κ)
    → ((e : Env) (opts : List BaseOption) (g : ℕ) (orders : HookOrders) (b : Bool)
          (printed : List Error)
        → P e opts g b (final e opts g orders b printed))
    → (e : Env) (g : ℕ) (b : Bool) (opts : List BaseOption) (r : App × Slots e.mempool)
    → new_app e g b opts ≡ returned r
    → P e opts g b r.0
new_app-all P every e g b opts r h =
    let (a, p) = new_app_inv e g b opts r h in
    let (printed, q) =
      print_error-printed (e.validate_proto_annotations a.files) (handled e opts g a.orders) in
    let same =
      ap (λ r. r.0) p ∙ ap {A = App} {B = App} (λ app. record app { loaded = b || app.loaded }) q in
    let loaded = or-false b (handled e opts g a.orders).loaded (handled-loaded e opts g a.orders) in
    let final_eq =
      same
      ∙ ap {B = App} (λ l. record (handled e opts g a.orders) { loaded = l; printed = printed })
          loaded in
    subst (P e opts g b) (sym final_eq) (every e opts g a.orders b printed)
