-- ===== src/Wiring/Settings.antt =====
-- What `NewApp` reads of its options and of the encoding configuration, and where it goes.
mod Tests
use sandbox_ledger.Base.{
  sym, ◌⊎◌, ℕ, ◌≡◌, refl, ap, ◌∙◌, ◌↔◌, inl, inr, Bool, true, false, Option, none, some, List, [],
  ◌∷◌, returned, arith, Bool-cases, if◌then◌else◌,
}
use sandbox_ledger.Base.Int.{ℤ, pos, negsuc, eq_int}
use sandbox_ledger.Base.Lists.{In}
use sandbox_ledger.Names.{consensus}
use sandbox_ledger.BaseSetup.{BaseOption}
use sandbox_ledger.Ante.{HandlerOptions}
use sandbox_ledger.Mempool.{Slots}
use sandbox_ledger.Wiring.{
  App, Ref, sign_modes, codec_for, amino_for, registry_for, with_textual, capture, by_value,
}
use sandbox_ledger.Wiring.Keepers.{make_keepers, skip_heights}
use sandbox_ledger.Wiring.Handlers.{mount_stores, set_hooks, ante_handler_options}
use sandbox_ledger.Wiring.Build.{Env, new_app, set_configurator, set_orders}
use sandbox_ledger.Wiring.Accessors.{
  configurator, legacy_amino, app_codec, interface_registry, tx_config,
}
use sandbox_ledger.Wiring.Final.{new_app-all}

eq_int_iff : (a b : ℤ) → (eq_int a b ≡ true) ↔ (a ≡ b)
eq_int_iff (pos a) (pos b) = ground arith
eq_int_iff (pos a) (negsuc b) = ground arith
eq_int_iff (negsuc a) (pos b) = ground arith
eq_int_iff (negsuc a) (negsuc b) = ground arith

or_else_iff :
    (x height : ℤ) (rest : Bool)
    → ((if eq_int x height then true else rest) ≡ true) ↔ ((height ≡ x) ⊎ (rest ≡ true))
or_else_iff x height rest = elim (Bool-cases (eq_int x height)) [
  | inl same ↦ rw same (λ _. inl (sym ((eq_int_iff x height).0 same)), λ _. refl)
  | inr other ↦ rw other (
    inr,
    λ h. elim h [
      | inl same ↦ let clash : false ≡ true = sym other ∙ (eq_int_iff x height).1 (sym same) in cc
      | inr later ↦ later
    ],
  )
]

skip_heights_iff :
    (heights : List ℤ) (skipped : ℤ → Bool) (height : ℤ)
    → (skip_heights heights skipped height ≡ true) ↔ (In height heights ⊎ (skipped height ≡ true))
unfolding skip_heights
skip_heights_iff [] skipped height =
    (inr, λ h. elim h [ inl none_there ↦ absurd none_there | inr there ↦ there ])
skip_heights_iff (x ∷ heights) skipped height =
    let (to, from) =
      skip_heights_iff heights (λ h. if eq_int x h then true else skipped h) height in
    let (split, join) = or_else_iff x height (skipped height) in
    (
      λ h. elim (to h) [
        | inl later ↦ inl (inr later)
        | inr here ↦ elim (split here) [ inl same ↦ inl (inl same) | inr before ↦ inr before ]
      ],
      λ h. from (elim h [
        | inl (inl same) ↦ inr (join (inl same))
        | inl (inr later) ↦ inl later
        | inr before ↦ inr (join (inr before))
      ]),
    )

-- What an application has of its options and of the encoding configuration.
pub record HasSettings (e : Env) (g : ℕ) (app : App) : Type 0 where
  -- one EVM chain id, for the codecs and for the EVM keeper
  pub codec : app_codec app ≡ codec_for e.evm_chain_id
  pub amino : legacy_amino app ≡ amino_for e.evm_chain_id
  pub registry : interface_registry app ≡ registry_for e.evm_chain_id
  pub evm_chain_id : app.evm_chain_id ≡ some e.evm_chain_id
  pub configured : configurator app ≡ some (app_codec app)
  -- the final bank keeper behind the textual sign mode, and this sign mode in the ante handler
  pub textual : tx_config app ≡ with_textual (capture app.bank_keeper)
  pub handler : HandlerOptions Ref
  pub handler_set : app.ante_options ≡ some handler
  pub handler_modes : handler.sign_mode_handler ≡ some (sign_modes (tx_config app))
  pub max_gas : handler.max_tx_gas_wanted ≡ g
  -- the heights to skip
  pub skips : ℤ → Bool
  pub skips_set : app.skip_upgrade_heights ≡ some skips
  pub skips_iff : (height : ℤ) → (skips height ≡ true) ↔ In height e.unsafe_skip_upgrades
  -- the consensus parameters of the final keeper
  pub params : app.param_store ≡ some (by_value consensus app)

-- In the application that `NewApp` returns the accessors answer codecs that are made for one EVM
-- chain id, that of the options, which is also the EVM keeper's, and a configurator over that codec.
-- The transaction configuration has the textual sign mode over the final bank keeper, and the ante
-- handler verifies signatures by it, with the limit of gas of the options. The upgrade keeper skips
-- a height exactly if the options list it, and the base application reads the consensus parameters
-- from their keeper.
pub new_app-HasSettings :
    (e : Env) (g : ℕ) (load_latest : Bool) (opts : List BaseOption) (r : App × Slots e.mempool)
    → new_app e g load_latest opts ≡ returned r
    → HasSettings e g r.0
unfolding make_keepers mount_stores set_hooks set_configurator set_orders ante_handler_options
    configurator legacy_amino app_codec interface_registry tx_config
new_app-HasSettings =
    new_app-all (λ e _ g _. HasSettings e g)
      (λ e opts g orders b printed. record {
        codec = refl;
        amino = refl;
        registry = refl;
        evm_chain_id = refl;
        configured = refl;
        textual = refl;
        handler = _;
        handler_set = refl;
        handler_modes = refl;
        max_gas = refl;
        skips = skip_heights e.unsafe_skip_upgrades (λ _. false);
        skips_set = refl;
        skips_iff = λ height.
            let (to, from) = skip_heights_iff e.unsafe_skip_upgrades (λ _. false) height in
            (λ h. elim (to h) [ inl there ↦ there | inr start ↦ cc ], λ there. from (inl there));
        params = refl;
      })
