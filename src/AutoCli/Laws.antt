-- ===== src/AutoCli/Laws.antt =====
-- Which modules `AutoCliOpts` collects.
use mathlib.Core.Path.{subst, ap₂}
use sandbox_ledger.Base.{
  some_inj, eq→≡, ≢→eq, ap, String, ◌≡◌, ◌≢◌, refl, sym, ◌∙◌, ◌↔◌, ◌⊎◌, inl, inr, Bool, true, false,
  Option, none, some, List, [], ◌∷◌, if◌then◌else◌, ◌==◌, eq_iff,
}
use sandbox_ledger.Base.Lists.{All}
use sandbox_ledger.AutoCli.{ManagedModule, AutoCliLib, enter, add_module, collect, auto_cli_opts}

module _ {M : Type 0} where
  abbrev pub In : ManagedModule M → List (ManagedModule M) → Type 0
  In m [] = ⊥
  In m (n ∷ ns) = (m ≡ n) ⊎ In m ns

  -- A module of the name that has the value `v` as an `appmodule.AppModule`.
  abbrev pub IsNamed : String → M → ManagedModule M → Type 0
  IsNamed name v m = (m.name ≡ some name) × (m.is_app_module ≡ true) × (m.app_module ≡ v)

  -- No module has the name, if there is one.
  abbrev pub IsFree : Option String → List (ManagedModule M) → Type 0
  IsFree none ms = Unit
  IsFree (some name) ms = All (λ m. m.name ≢ some name) ms

  abbrev pub HaveDistinctNames : List (ManagedModule M) → Type 0
  HaveDistinctNames [] = Unit
  HaveDistinctNames (m ∷ ms) = IsFree m.name ms × HaveDistinctNames ms

  if_cases :
      (b : Bool) (m : M) (o : Option M) (v : M)
      → (if b then some m else o) ≡ some v
      → (b ≡ true) × (m ≡ v) ⊎ (o ≡ some v)
  if_cases true m o v h = inl (refl, some_inj h)
  if_cases false m o v h = inr h

  enter_cases :
      (given : Option String) (is_app : Bool) (m : M) (modules : String → Option M) (name : String)
      (v : M)
      → enter given is_app m modules name ≡ some v
      → (modules name ≡ some v) ⊎ (given ≡ some name) × (is_app ≡ true) × (m ≡ v)
  enter_cases none is_app m modules name v h = inl h
  enter_cases (some n) false m modules name v h = inl h
  enter_cases (some n) true m modules name v h = elim (if_cases (name == n) m (modules name) v h) [
    | inl (same, at) ↦ inr (ap some (sym (eq→≡ name n same)), refl, at)
    | inr kept ↦ inl kept
  ]

  enter_keeps :
      (given : Option String) (is_app : Bool) (m : M) (modules : String → Option M) (name : String)
      → given ≢ some name
      → enter given is_app m modules name ≡ modules name
  enter_keeps none is_app m modules name other = refl
  enter_keeps (some n) false m modules name other = refl
  enter_keeps (some n) true m modules name other =
      rw (≢→eq name n (λ p. other (ap some (sym p)))) refl

  enter_named :
      (m : M) (modules : String → Option M) (name : String)
      → enter (some name) true m modules name ≡ some m
  enter_named m modules name = rw ((eq_iff name name).1 refl) refl

  collect_cases :
      (ms : List (ManagedModule M)) (modules : String → Option M) (name : String) (v : M)
      → collect ms modules name ≡ some v
      → (modules name ≡ some v) ⊎ ((m : ManagedModule M) × In m ms × IsNamed name v m)
  unfolding collect add_module
  collect_cases [] modules name v h = inl h
  collect_cases (m ∷ ms) modules name v h = elim (collect_cases ms _ name v h) [
    | inl before ↦ elim (enter_cases m.name m.is_app_module m.app_module modules name v before) [
      | inl first ↦ inl first
      | inr named ↦ inr (m, inl refl, named)
    ]
    | inr (n, later, named) ↦ inr (n, inr later, named)
  ]

  collect_keeps :
      (ms : List (ManagedModule M)) (modules : String → Option M) (name : String)
      → IsFree (some name) ms
      → collect ms modules name ≡ modules name
  unfolding collect add_module
  collect_keeps [] modules name free = refl
  collect_keeps (m ∷ ms) modules name (other, free) =
      collect_keeps ms _ name free
      ∙ enter_keeps m.name m.is_app_module m.app_module modules name other

  collect_first :
      (m : ManagedModule M) (ms : List (ManagedModule M)) (modules : String → Option M)
      (name : String)
      → IsFree m.name ms
      → m.name ≡ some name
      → m.is_app_module ≡ true
      → collect (m ∷ ms) modules name ≡ some m.app_module
  unfolding collect add_module
  collect_first m ms modules name free named app =
      collect_keeps ms _ name (subst (λ o. IsFree o ms) named free)
      ∙ ap₂ (λ given is_app. enter given is_app m.app_module modules name) named app
      ∙ enter_named m.app_module modules name

  collect_named :
      (ms : List (ManagedModule M)) (modules : String → Option M) (name : String)
      (m : ManagedModule M)
      → HaveDistinctNames ms
      → In m ms
      → m.name ≡ some name
      → m.is_app_module ≡ true
      → collect ms modules name ≡ some m.app_module
  unfolding collect add_module
  collect_named [] modules name m distinct member named app = elim member [ ]
  collect_named (n ∷ ms) modules name m (free, distinct) (inl same) named app =
      collect_first n ms modules name free (ap (λ m. m.name) (sym same) ∙ named)
        (ap (λ m. m.is_app_module) (sym same) ∙ app)
      ∙ ap (λ m. some m.app_module) (sym same)
  collect_named (n ∷ ms) modules name m (free, distinct) (inr later) named app =
      collect_named ms _ name m distinct later named app

  -- If the module manager's modules have distinct names, then in whatever order Go ranges over
  -- them, the entry of `AutoCliOpts` for a name is the module of that name that is an
  -- `appmodule.AppModule`, and there is none where no module is one.
  pub auto_cli_opts_iff :
      {O C : Type 0} (l : AutoCliLib M O C) (order : List (ManagedModule M)) (name : String) (v : M)
      → HaveDistinctNames order
      → ((auto_cli_opts l order).modules name ≡ some v)
        ↔ (m : ManagedModule M) × In m order × IsNamed name v m
  unfolding auto_cli_opts
  auto_cli_opts_iff l order name v distinct = (to, from)
    where
      to :
          (auto_cli_opts l order).modules name ≡ some v
          → (m : ManagedModule M) × In m order × IsNamed name v m
      to h = elim (collect_cases order (λ _. none) name v h) [ inl empty ↦ cc | inr found ↦ found ]

      from :
          (m : ManagedModule M) × In m order × IsNamed name v m
          → (auto_cli_opts l order).modules name ≡ some v
      from (m, member, (named, app, same)) =
          collect_named order (λ _. none) name m distinct member named app ∙ ap some same
