-- ===== src/Blocks/Calls.antt =====
-- Which modules a block calls, and how often.
use mathlib.Core.Bool.{decide}
use sandbox_ledger.Base.{
  ℕ, ◌+◌, ◌≡◌, refl, ap, ◌∙◌, Bool, true, false, some, List, [], ◌∷◌, Result, ok, returned,
  if◌then◌else◌, arith,
}
use sandbox_ledger.Names.{ModuleName, ModuleName-discrete}
use sandbox_ledger.Modules.{listed, HookOrders, ManagerLib}
use sandbox_ledger.Modules.Orders.{Unique, Registered}
use sandbox_ledger.Base.Lists.{All}
use sandbox_ledger.Wiring.{Ref}
use sandbox_ledger.Blocks.{BlockLib}

unfoldable pub occurrences : ModuleName → List ModuleName → ℕ
unfolding ModuleName-discrete decide
occurrences m [] = 0
occurrences m (n ∷ ns) =
    if decide (ModuleName-discrete m n) then 1 + occurrences m ns else occurrences m ns

-- The hooks of an order, called one after the other from a context to a context. Modules without
-- the hook are left out.
pub data Calls {Ctx : Type 0} (has : ModuleName → Bool)
    (hook : ModuleName → Ctx → Result (Unit {0}) × Ctx)
    : List ModuleName → Ctx → List ModuleName → Ctx → Type 0 where
  done : {ctx : Ctx} → Calls has hook [] ctx [] ctx
  left_out :
      {m : ModuleName} {ms log : List ModuleName} {ctx ctx' : Ctx}
      → has m ≡ false
      → Calls has hook ms ctx log ctx'
      → Calls has hook (m ∷ ms) ctx log ctx'
  then_called :
      {m : ModuleName} {ms log : List ModuleName} {ctx ctx1 ctx' : Ctx}
      → has m ≡ true
      → hook m ctx ≡ (ok tt, ctx1)
      → Calls has hook ms ctx1 log ctx'
      → Calls has hook (m ∷ ms) ctx (m ∷ log) ctx'

module _ {m n : ModuleName} (ms : List ModuleName) where
  listed_later : ¬ (m ≡ n) → listed m (n ∷ ms) ≡ true → listed m ms ≡ true
  unfolding listed
  listed_later other member = ground arith

  occurs_first : m ≡ n → occurrences m ms ≡ 0 → occurrences m (n ∷ ms) ≡ 1
  unfolding occurrences
  occurs_first same none_later = ground arith

  occurs_later : ¬ (m ≡ n) → occurrences m (n ∷ ms) ≡ occurrences m ms
  unfolding occurrences
  occurs_later other = ground arith

module _ {Ctx : Type 0} (has : ModuleName → Bool)
    (hook : ModuleName → Ctx → Result (Unit {0}) × Ctx) where
  not_called :
      (m : ModuleName) {order log : List ModuleName} {ctx ctx' : Ctx}
      → Calls has hook order ctx log ctx'
      → listed m order ≡ false
      → occurrences m log ≡ 0
  unfolding listed occurrences
  not_called m done h = refl
  not_called m (left_out _ rest) h = ground (arith, not_called m rest)
  not_called m (then_called _ _ rest) h = ground (arith, not_called m rest)

  -- A module with the hook is called once if an order without repetitions has it.
  pub called_once :
      (m : ModuleName) {order log : List ModuleName} {ctx ctx' : Ctx}
      → has m ≡ true
      → Calls has hook order ctx log ctx'
      → Unique order
      → listed m order ≡ true
      → occurrences m log ≡ 1
  unfolding listed occurrences
  called_once m here done unique member = cc
  called_once m here (left_out {m = n} {ms = ms} absent rest) unique member =
      elim (ModuleName-discrete m n) [
        | yes same ↦ cc (ap has same)
        | no other ↦ called_once m here rest unique.1 (listed_later ms other member)
      ]
  called_once m here (then_called {m = n} {ms = ms} {log = log} _ _ rest) unique member =
      elim (ModuleName-discrete m n) [
        | yes same ↦
            occurs_first log same (not_called m rest (ap (λ k. listed k ms) same ∙ unique.0))
        | no other ↦
            occurs_later log other ∙ called_once m here rest unique.1 (listed_later ms other member)
      ]

  -- Only registered modules with the hook are called.
  pub Calls-Registered :
      {order log : List ModuleName} {ctx ctx' : Ctx}
      → Calls has hook order ctx log ctx'
      → Registered order
      → Registered log × All (λ m. has m ≡ true) log
  Calls-Registered done registered = (tt, tt)
  Calls-Registered (left_out _ rest) registered = Calls-Registered rest registered.1
  Calls-Registered (then_called here _ rest) registered =
      let (known, with_hook) = Calls-Registered rest registered.1 in
      ((registered.0, known), (here, with_hook))

-- What the module manager promises: a call that succeeds has called the hooks by the order that the
-- manager holds, each at the context that the hook before it left.
pub record RunsInOrder (l : BlockLib) (m : ManagerLib) : Type 0 where
  pub has_pre_blocker : ModuleName → Bool
  pub pre_hook : ModuleName → l.Ctx → Result (Unit {0}) × l.Ctx
  pub begin_hook : ModuleName → l.Ctx → Result (Unit {0}) × l.Ctx
  pub end_hook : ModuleName → l.Ctx → Result (Unit {0}) × l.Ctx
  pub pre :
      (modules : List (ModuleName × List Ref)) (o : HookOrders) (ctx ctx' : l.Ctx)
      (r : l.ResponsePreBlock)
      → l.pre_block (modules, some o) ctx ≡ (ok r, ctx')
      → (log : List ModuleName) × Calls has_pre_blocker pre_hook o.pre_blockers ctx log ctx'
  pub begin :
      (modules : List (ModuleName × List Ref)) (o : HookOrders) (ctx ctx' : l.Ctx)
      (r : l.BeginBlock)
      → l.begin_block (modules, some o) ctx ≡ (ok r, ctx')
      → (log : List ModuleName) × Calls m.has_begin_blocker begin_hook o.begin_blockers ctx log ctx'
  pub end :
      (modules : List (ModuleName × List Ref)) (o : HookOrders) (ctx ctx' : l.Ctx) (r : l.EndBlock)
      → l.end_block (modules, some o) ctx ≡ (ok r, ctx')
      → (log : List ModuleName) × Calls m.has_end_blocker end_hook o.end_blockers ctx log ctx'

-- The check of the module manager lets no order pass that forgets a module.
abbrev pub RefusesForgotten : ManagerLib → Type 0
RefusesForgotten m =
    (modules : List ModuleName) (needs : ModuleName → Bool) (order : List ModuleName)
    → m.assert_no_forgotten_modules modules needs order ≡ returned tt
    → (n : ModuleName) → listed n modules ≡ true
    → needs n ≡ true
    → listed n order ≡ true
