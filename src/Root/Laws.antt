-- ===== src/Root/Laws.antt =====
-- When the hook before a command succeeds, and what it has then done.
use sandbox_ledger.Base.{
  ◌≡◌, refl, ap, ◌∙◌, ◌↔◌, ◌⊎◌, inl, inr, Bool, true, false, Option, none, some, [], ◌∷◌, ◌++◌,
  Error, Result, ok, err, on_ok, on_ok_inv, ok_inj, if◌then◌else◌,
}
use sandbox_ledger.Root.{
  RootLib, enabled_sign_modes, enable_textual, client_context, on_success, after_handler, hand_over,
  persistent_pre_run_e,
}

module _ (l : RootLib) where
  open l use {Ctx, World}

  -- The context that a command gets: an offline one as it was read, and otherwise with a
  -- transaction configuration that also signs textually, by the metadata that it queries itself.
  abbrev pub IsClientContext : Ctx → Ctx → Type 0
  IsClientContext configured ctx =
      (l.offline configured ≡ true) × (ctx ≡ configured)
      ⊎ (l.offline configured ≡ false)
        × ((tx_cfg : l.TxConfig) × (l.new_tx_config_with_options configured
                (l.default_sign_modes ++ l.sign_mode_textual ∷ []) configured
              ≡ ok tx_cfg)
            × (ctx ≡ l.with_tx_config tx_cfg configured))

  -- All the steps of a run that succeeds.
  pub record Succeeds (init_client_ctx : Ctx) (w w' : World) : Type 0 where
    pub flagged : Ctx
    pub configured : Ctx
    pub ctx : Ctx
    pub with_flags : World
    pub with_config : World
    pub with_handler : World
    pub reads_flags :
        l.read_persistent_command_flags (l.with_cmd_context init_client_ctx) (l.set_streams w)
        ≡ (ok flagged, with_flags)
    pub reads_config : l.read_from_client_config flagged with_flags ≡ (ok configured, with_config)
    pub is_client_context : IsClientContext configured ctx
    pub hands_over : l.set_cmd_client_context_handler ctx with_config ≡ (none, with_handler)
    pub intercepts :
        l.intercept_configs_pre_run_handler l.init_app_config l.default_comet_config with_handler
        ≡ (none, w')

  enable_textual_inv :
      (configured ctx : Ctx) → enable_textual l configured ≡ ok ctx → IsClientContext configured ctx
  unfolding enable_textual enabled_sign_modes
  enable_textual_inv configured ctx h = by_mode (l.offline configured) refl h
    where
      by_mode :
          (b : Bool)
          → l.offline configured ≡ b
          → (if b
              then ok configured
              else on_ok
                  (l.new_tx_config_with_options configured (enabled_sign_modes l) configured)
                  (λ tx_cfg. ok (l.with_tx_config tx_cfg configured)))
            ≡ ok ctx
          → IsClientContext configured ctx
      by_mode true mode h = inl (mode, ok_inj h)
      by_mode false mode h =
          let (tx_cfg, p, q) =
            on_ok_inv (l.new_tx_config_with_options configured (enabled_sign_modes l) configured) _
              h in
          inr (mode, (tx_cfg, p, ok_inj q))

  enable_textual_eq :
      (configured ctx : Ctx) → IsClientContext configured ctx → enable_textual l configured ≡ ok ctx
  unfolding enable_textual enabled_sign_modes
  enable_textual_eq configured ctx (inl (mode, same)) = rw (mode, same) refl
  enable_textual_eq configured ctx (inr (mode, (tx_cfg, p, same))) = rw (mode, p, same) refl

  after_handler_inv :
      (o : Option Error × World) (w' : World)
      → after_handler l o ≡ (none, w')
      → (w : World) × (o ≡ (none, w))
        × (l.intercept_configs_pre_run_handler l.init_app_config l.default_comet_config w
            ≡ (none, w'))
  unfolding after_handler
  after_handler_inv (some e, w) w' h = cc
  after_handler_inv (none, w) w' h = (w, refl, h)

  hand_over_inv :
      (r : Result Ctx × World) (w' : World)
      → hand_over l r ≡ (none, w')
      → (ctx : Ctx) × (w : World) × (r ≡ (ok ctx, w))
        × (after_handler l (l.set_cmd_client_context_handler ctx w) ≡ (none, w'))
  unfolding hand_over
  hand_over_inv (err e, w) w' h = cc
  hand_over_inv (ok ctx, w) w' h = (ctx, w, refl, h)

  on_success_inv :
      {A B : Type 0} (r : Result A × World) (next : A → World → Result B × World) (b : B)
      (w' : World)
      → on_success l r next ≡ (ok b, w')
      → (a : A) × (w : World) × (r ≡ (ok a, w)) × (next a w ≡ (ok b, w'))
  unfolding on_success
  on_success_inv (err e, w) next b w' h = cc
  on_success_inv (ok a, w) next b w' h = (a, w, refl, h)

  to_steps :
      (init_client_ctx : Ctx) (w w' : World)
      → (persistent_pre_run_e l init_client_ctx w).0 ≡ (none, w')
      → Succeeds init_client_ctx w w'
  unfolding persistent_pre_run_e client_context
  to_steps init_client_ctx w w' h =
      let start = l.with_cmd_context init_client_ctx in
      let (ctx, w2, made, h1) = hand_over_inv (client_context l start (l.set_streams w)) w' h in
      let (with_handler, p, q) =
        after_handler_inv (l.set_cmd_client_context_handler ctx w2) w' h1 in
      let (flagged, with_flags, p1, h2) =
        on_success_inv (l.read_persistent_command_flags start (l.set_streams w)) _ ctx w2 made in
      let (configured, with_config, p2, h3) =
        on_success_inv (l.read_from_client_config flagged with_flags) _ ctx w2 h2 in
      record {
        flagged = flagged;
        configured = configured;
        ctx = ctx;
        with_flags = with_flags;
        with_config = with_config;
        with_handler = with_handler;
        reads_flags = p1;
        reads_config = p2;
        is_client_context =
            enable_textual_inv configured ctx (ap (λ (r : Result Ctx × World). r.0) h3);
        hands_over =
            ap (l.set_cmd_client_context_handler ctx) (ap (λ (r : Result Ctx × World). r.1) h3) ∙ p;
        intercepts = q;
      }

  from_steps :
      (init_client_ctx : Ctx) (w w' : World)
      → Succeeds init_client_ctx w w'
      → (persistent_pre_run_e l init_client_ctx w).0 ≡ (none, w')
  unfolding persistent_pre_run_e client_context hand_over after_handler on_success
  from_steps init_client_ctx w w' s =
      rw
        (
          s.reads_flags,
          s.reads_config,
          enable_textual_eq s.configured s.ctx s.is_client_context,
          s.hands_over,
        )
        s.intercepts

  -- The hook before a command succeeds exactly if the flags and the client's configuration can be
  -- read, the transaction configuration can be made where the client is not offline, the context
  -- that comes of it is accepted by the command, and the server's configurations are then read. A
  -- client that is offline keeps its transaction configuration and asks no node for metadata. The
  -- variable that the hook captures is left with nothing of the run but the command's context.
  pub persistent_pre_run_e_iff :
      (init_client_ctx : Ctx) (w w' : World)
      → ((persistent_pre_run_e l init_client_ctx w).0 ≡ (none, w') ↔ Succeeds init_client_ctx w w')
        × ((persistent_pre_run_e l init_client_ctx w).1 ≡ l.with_cmd_context init_client_ctx)
  unfolding persistent_pre_run_e
  persistent_pre_run_e_iff init_client_ctx w w' =
      ((to_steps init_client_ctx w w', from_steps init_client_ctx w w'), refl)
