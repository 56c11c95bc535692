-- ===== src/Root/Failures.antt =====
-- When the hook before a command fails, and what it has done until then.
use mathlib.Core.Path.{subst}
use sandbox_ledger.Base.{
  ◌≡◌, refl, sym, ap, ◌∙◌, ◌↔◌, ◌⊎◌, inl, inr, Bool, true, false, Option, none, some, ◌++◌, [], ◌∷◌,
  Error, Result, ok, err, on_ok, ok_inj, if◌then◌else◌,
}
use sandbox_ledger.Root.{
  RootLib, enabled_sign_modes, enable_textual, client_context, on_success, after_handler, hand_over,
  persistent_pre_run_e,
}

unless_fails :
    {A B : Type 0} (b : Bool) (a : B) (r : Result A) (f : A → B) (x : Error)
    → ((if b then ok a else on_ok r (λ t. ok (f t))) ≡ err x) ↔ ((b ≡ false) × (r ≡ err x))
unless_fails true a r f x = (λ h. cc, λ (p, q). cc)
unless_fails false a (ok t) f x = (λ h. cc, λ (p, q). cc)
unless_fails false a (err y) f x = (λ h. (refl, cc), λ (p, q). cc)

module _ (l : RootLib) where
  open l use {Ctx, World}

  -- Why there is no context for the command, and the world that is left: the flags, the client's
  -- configuration, or the transaction configuration of a client that is not offline.
  abbrev pub NoContext : Ctx → World → Error → World → Type 0
  NoContext start w x w' =
      (l.read_persistent_command_flags start w ≡ (err x, w'))
      ⊎ ((flagged : Ctx) × (w1 : World) × (l.read_persistent_command_flags start w
            ≡ (ok flagged, w1))
          × ((l.read_from_client_config flagged w1 ≡ (err x, w'))
              ⊎ ((configured : Ctx) × (l.read_from_client_config flagged w1 ≡ (ok configured, w'))
                  × (l.offline configured ≡ false)
                  × (l.new_tx_config_with_options configured
                        (l.default_sign_modes ++ l.sign_mode_textual ∷ []) configured
                      ≡ err x))))

  on_success_fails :
      {A B : Type 0} (r : Result A × World) (next : A → World → Result B × World) (x : Error)
      (w' : World)
      → (on_success l r next ≡ (err x, w'))
        ↔ ((r ≡ (err x, w')) ⊎ ((a : A) × (w : World) × (r ≡ (ok a, w)) × (next a w ≡ (err x, w'))))
  unfolding on_success
  on_success_fails (ok a, w) next x w' =
      (λ h. inr (a, w, refl, h), λ h. elim h [ inl h ↦ cc | inr (b, v, p, q) ↦ cc ])
  on_success_fails (err y, w) next x w' =
      (λ h. inl cc, λ h. elim h [ inl h ↦ cc | inr (b, v, p, q) ↦ cc ])

  textual_fails :
      (ctx : Ctx) (x : Error)
      → (enable_textual l ctx ≡ err x) ↔ (
          (l.offline ctx ≡ false)
          × (l.new_tx_config_with_options ctx (l.default_sign_modes ++ l.sign_mode_textual ∷ []) ctx
              ≡ err x))
  unfolding enable_textual enabled_sign_modes
  textual_fails ctx x = unless_fails (l.offline ctx) ctx _ _ x

  -- The last step, which leaves the world alone.
  paired :
      {r : Result Ctx} {w w' : World} {x : Error}
      → ◌≡◌ {A = Result Ctx × World} (r, w) (err x, w')
      → (r ≡ err x) × (w ≡ w')
  paired h = (ap (λ (o : Result Ctx × World). o.0) h, ap (λ (o : Result Ctx × World). o.1) h)

  config_fails :
      (flagged : Ctx) (w w' : World) (x : Error)
      → (on_success l
            (l.read_from_client_config flagged w)
            (λ configured w2. (enable_textual l configured, w2))
          ≡ (err x, w'))
        ↔ ((l.read_from_client_config flagged w ≡ (err x, w'))
            ⊎ ((configured : Ctx) × (l.read_from_client_config flagged w ≡ (ok configured, w'))
                × (l.offline configured ≡ false)
                × (l.new_tx_config_with_options configured
                      (l.default_sign_modes ++ l.sign_mode_textual ∷ [])
                      configured
                    ≡ err x)))
  config_fails flagged w w' x =
      let config =
        on_success_fails (l.read_from_client_config flagged w)
          (λ configured w2. (enable_textual l configured, w2)) x w' in
      (
        λ h. elim (config.0 h) [
          | inl p ↦ inl p
          | inr (configured, v, p, q) ↦
              let (failed, same) = paired q in
              inr (
                configured,
                p ∙ ap (λ u. (ok configured, u)) same,
                ((textual_fails configured x).0 failed).0,
                ((textual_fails configured x).0 failed).1,
              )
        ],
        λ h. elim h [
          | inl p ↦ config.1 (inl p)
          | inr (configured, p, online, failed) ↦ config.1 (
              inr (
                configured,
                w',
                p,
                ap (λ r. (r, w')) ((textual_fails configured x).1 (online, failed)),
              ))
        ],
      )

  context_fails :
      (start : Ctx) (w w' : World) (x : Error)
      → (client_context l start w ≡ (err x, w')) ↔ NoContext start w x w'
  unfolding client_context
  context_fails start w w' x =
      let flags =
        on_success_fails (l.read_persistent_command_flags start w)
          (λ flagged w1.
            on_success l (l.read_from_client_config flagged w1)
              (λ configured w2. (enable_textual l configured, w2)))
          x w' in
      (
        λ h. elim (flags.0 h) [
          | inl p ↦ inl p
          | inr (flagged, w1, p, q) ↦ inr (flagged, w1, p, (config_fails flagged w1 w' x).0 q)
        ],
        λ h. elim h [
          | inl p ↦ flags.1 (inl p)
          | inr (flagged, w1, p, q) ↦
              flags.1 (inr (flagged, w1, p, (config_fails flagged w1 w' x).1 q))
        ],
      )

  -- A failure behind the context: the command refuses the context, or the configurations of the
  -- server cannot be read after that.
  abbrev pub RefusedLater : Ctx → World → Error → World → Type 0
  RefusedLater ctx w x w' =
      (l.set_cmd_client_context_handler ctx w ≡ (some x, w'))
      ⊎ ((with_handler : World) × (l.set_cmd_client_context_handler ctx w ≡ (none, with_handler))
          × (l.intercept_configs_pre_run_handler l.init_app_config l.default_comet_config
                with_handler
              ≡ (some x, w')))

  after_handler_fails :
      (o : Option Error × World) (x : Error) (w' : World)
      → (after_handler l o ≡ (some x, w')) ↔ (
          (o ≡ (some x, w'))
          ⊎ ((with_handler : World) × (o ≡ (none, with_handler))
              × (l.intercept_configs_pre_run_handler l.init_app_config l.default_comet_config
                    with_handler
                  ≡ (some x, w'))))
  unfolding after_handler
  after_handler_fails (some y, w) x w' =
      (λ h. inl h, λ h. elim h [ inl p ↦ p | inr (v, p, q) ↦ cc ])
  after_handler_fails (none, w) x w' = (
    λ h. inr (w, refl, h),
    λ h. elim h [
      | inl p ↦ cc
      | inr (v, p, q) ↦
          ap (λ o. l.intercept_configs_pre_run_handler l.init_app_config l.default_comet_config o.1)
            p
          ∙ q
    ],
  )

  hand_over_fails :
      (r : Result Ctx × World) (w' : World) (x : Error)
      → (hand_over l r ≡ (some x, w')) ↔ (
          (r ≡ (err x, w'))
          ⊎ ((ctx : Ctx) × (w : World) × (r ≡ (ok ctx, w)) × RefusedLater ctx w x w'))
  unfolding hand_over
  hand_over_fails (err y, w) w' x =
      (λ h. inl cc, λ h. elim h [ inl p ↦ cc | inr (ctx, v, p, _) ↦ cc ])
  hand_over_fails (ok made, w) w' x = (
    λ h.
        inr
          (made, w, refl, (after_handler_fails (l.set_cmd_client_context_handler made w) x w').0 h),
    λ h. elim h [
      | inl p ↦ cc
      | inr (ctx, v, p, later) ↦
          (after_handler_fails (l.set_cmd_client_context_handler made w) x w').1 (
            subst (λ o. RefusedLater made o x w') (ap (λ (o : Result Ctx × World). o.1) (sym p))
              (subst (λ c. RefusedLater c v x w') (ok_inj (ap (λ (o : Result Ctx × World). o.0) p))
                later))
    ],
  )

  -- The hook before a command fails exactly in two ways. Either the flags, the client's
  -- configuration, or the transaction configuration of a client that is not offline cannot be had:
  -- then the command is not given a context, the server's configurations are not read, and the
  -- command's streams are set, and what else has changed is what reading the flags and the client's
  -- configuration has left, whether they succeeded or not. Or the command refuses the context, or
  -- the server's configurations cannot be read, and then it leaves what that call has left.
  pub persistent_pre_run_e_fails :
      (init_client_ctx : Ctx) (w w' : World) (x : Error)
      → ((persistent_pre_run_e l init_client_ctx w).0 ≡ (some x, w')) ↔ (
          NoContext (l.with_cmd_context init_client_ctx) (l.set_streams w) x w'
          ⊎ ((ctx : Ctx) × (v : World) × (client_context l
                  (l.with_cmd_context init_client_ctx)
                  (l.set_streams w)
                ≡ (ok ctx, v))
              × RefusedLater ctx v x w'))
  unfolding persistent_pre_run_e
  persistent_pre_run_e_fails init_client_ctx w w' x =
      let start = l.with_cmd_context init_client_ctx in
      let context = context_fails start (l.set_streams w) w' x in
      let end = hand_over_fails (client_context l start (l.set_streams w)) w' x in
      (
        λ h. elim (end.0 h) [ inl p ↦ inl (context.0 p) | inr later ↦ inr later ],
        λ h. elim h [ inl p ↦ end.1 (inl (context.1 p)) | inr later ↦ end.1 (inr later) ],
      )
