-- ===== src/Ante/Chain.antt =====
-- How a chain of decorators runs, for decorators that either reject a transaction or hand it on.
use sandbox_ledger.Base.{
  ◌≡◌, refl, sym, ap, ◌∙◌, Bool, Option, none, some, List, [], ◌∷◌, ◌++◌, arith, Error,
}
use sandbox_ledger.Base.Lists.{All}
use sandbox_ledger.Ante.{Tx, AnteHandler, Decorator, AnteLib}

-- A decorator's check, without what follows it: the context that it hands on, or an error.
abbrev pub Check : Type 0 → Type 0 → Type 0 → Type 0 → Type 0 → Type 0
Check K F V C B = Decorator K F V → AnteHandler C B

module _ {C B : Type 0} where
  abbrev pub accept : AnteHandler C B
  accept ctx tx sim = (ctx, none)

  abbrev pub hand_on : C × Option Error → AnteHandler C B → AnteHandler C B
  hand_on (ctx', none) next ctx tx sim = next ctx' tx sim
  hand_on (ctx', some e) next ctx tx sim = (ctx', some e)

  hand_on-cong :
      (r : C × Option Error) (f g : AnteHandler C B) (ctx : C) (tx : Option (Tx B)) (sim : Bool)
      → ((c : C) → f c tx sim ≡ g c tx sim)
      → hand_on r f ctx tx sim ≡ hand_on r g ctx tx sim
  hand_on-cong (c, none) f g ctx tx sim h = h c
  hand_on-cong (c, some e) f g ctx tx sim h = refl

module _ {K F V C B : Type 0} where
  -- The handlers that `ChainAnteDecorators` nests: each decorator over those behind it.
  abbrev pub nest :
      (Decorator K F V → AnteHandler C B → AnteHandler C B)
      → List (Decorator K F V)
      → AnteHandler C B
  nest handle [] = accept
  nest handle (d ∷ ds) = handle d (nest handle ds)

  -- The checks of a list of decorators, in order, up to the first error.
  abbrev pub check_all : Check K F V C B → List (Decorator K F V) → AnteHandler C B
  check_all check [] ctx tx sim = (ctx, none)
  check_all check (d ∷ ds) ctx tx sim = hand_on (check d ctx tx sim) (check_all check ds) ctx tx sim

-- What the SDK documents of a chain, and of decorators that call what follows them last, once and
-- with the same transaction, or not at all.
pub record ChainLaws {K F V C B : Type 0} (l : AnteLib K F V C B) : Type 0 where
  pub check : Check K F V C B
  pub handles :
      (d : Decorator K F V) (next : AnteHandler C B) (ctx : C) (tx : Option (Tx B)) (sim : Bool)
      → l.ante_handle d next ctx tx sim ≡ hand_on (check d ctx tx sim) next ctx tx sim
  pub chains :
      (d : Decorator K F V) (ds : List (Decorator K F V)) (ctx : C) (tx : Option (Tx B))
      (sim : Bool)
      → l.chain_ante_decorators (d ∷ ds) ctx tx sim ≡ nest l.ante_handle (d ∷ ds) ctx tx sim

module _ {K F V C B : Type 0} {l : AnteLib K F V C B} (laws : ChainLaws l) where
  nest-check_all :
      (ds : List (Decorator K F V)) (ctx : C) (tx : Option (Tx B)) (sim : Bool)
      → nest l.ante_handle ds ctx tx sim ≡ check_all laws.check ds ctx tx sim
  nest-check_all [] ctx tx sim = refl
  nest-check_all (d ∷ ds) ctx tx sim =
      rw (laws.handles d (nest l.ante_handle ds) ctx tx sim)
        (hand_on-cong (laws.check d ctx tx sim) _ _ ctx tx sim (λ c. nest-check_all ds c tx sim))

  -- A chain accepts or rejects as its checks do.
  pub chain-check_all :
      (d : Decorator K F V) (ds : List (Decorator K F V)) (ctx : C) (tx : Option (Tx B))
      (sim : Bool)
      → l.chain_ante_decorators (d ∷ ds) ctx tx sim ≡ check_all laws.check (d ∷ ds) ctx tx sim
  chain-check_all d ds ctx tx sim =
      rw (laws.chains d ds ctx tx sim) (nest-check_all (d ∷ ds) ctx tx sim)

module _ {K F V C B : Type 0} (check : Check K F V C B) (tx : Option (Tx B)) (sim : Bool) where
  -- The decorator accepts the transaction in some context, and hands some context on.
  abbrev pub Accepts : Decorator K F V → Type 0
  Accepts d = (c c' : C) × (check d c tx sim ≡ (c', none))

  -- The first check's context, if the whole list accepts.
  pub check_all-cons :
      (d : Decorator K F V) (ds : List (Decorator K F V)) (ctx : C) {ctx' : C}
      → check_all check (d ∷ ds) ctx tx sim ≡ (ctx', none)
      → (c : C) × (check d ctx tx sim ≡ (c, none)) × (check_all check ds c tx sim ≡ (ctx', none))
  check_all-cons d ds ctx {ctx'} h = go (check d ctx tx sim) refl h
    where
      go :
          (r : C × Option Error)
          → check d ctx tx sim ≡ r
          → hand_on r (check_all check ds) ctx tx sim ≡ (ctx', none)
          → (c : C) × (check d ctx tx sim ≡ (c, none))
            × (check_all check ds c tx sim ≡ (ctx', none))
      go (c, none) e h = (c, e, h)
      go (c, some x) e h = ground arith

  pub check_all-Accepts :
      (ds : List (Decorator K F V)) (ctx : C) {ctx' : C}
      → check_all check ds ctx tx sim ≡ (ctx', none)
      → All Accepts ds
  check_all-Accepts [] ctx h = tt
  check_all-Accepts (d ∷ ds) ctx h =
      let (c, here, later) = check_all-cons d ds ctx h in
      ((ctx, c, here), check_all-Accepts ds c later)

  -- The contexts around one decorator of a list that accepts.
  pub check_all-split :
      (before after : List (Decorator K F V)) (d : Decorator K F V) (ctx : C) {ctx' : C}
      → check_all check (before ++ d ∷ after) ctx tx sim ≡ (ctx', none)
      → (c c' : C) × (check_all check before ctx tx sim ≡ (c, none))
        × (check d c tx sim ≡ (c', none))
        × (check_all check after c' tx sim ≡ (ctx', none))
  check_all-split [] after d ctx h =
      let (c', here, later) = check_all-cons d after ctx h in (ctx, c', refl, here, later)
  check_all-split (x ∷ before) after d ctx h =
      let (first, here, later) = check_all-cons x (before ++ d ∷ after) ctx h in
      let (c, c', passed, at_d, behind) = check_all-split before after d first later in
      (c, c', ap (λ r. hand_on r (check_all check before) ctx tx sim) here ∙ passed, at_d, behind)

  -- What each decorator of a kind leaves alone, a list of the kind does.
  pub check_all-keeps :
      {A : Type 0} (q : C → A) (Kind : Decorator K F V → Type 0)
      → ((d : Decorator K F V) (c c' : C) → Kind d → check d c tx sim ≡ (c', none) → q c' ≡ q c)
      → (ds : List (Decorator K F V)) (ctx : C) {ctx' : C} → All Kind ds
      → check_all check ds ctx tx sim ≡ (ctx', none)
      → q ctx' ≡ q ctx
  check_all-keeps q Kind keeps [] ctx kinds h = ap (λ (r : C × Option Error). q r.0) (sym h)
  check_all-keeps q Kind keeps (d ∷ ds) ctx (kind, kinds) h =
      let (c, here, later) = check_all-cons d ds ctx h in
      check_all-keeps q Kind keeps ds c kinds later ∙ keeps d ctx c kind here
