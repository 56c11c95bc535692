-- ===== src/Wiring/Handlers.antt =====
-- The second half of `NewApp`: the stores are mounted and the handlers are set, `setAnteHandler`
-- and `setPostHandler` among them.
use sandbox_ledger.Base.{
  ℕ, true, none, some, [], ◌∷◌, ◌++◌, Result, Outcome, returned, ◌>>◌, or_panic,
}
use sandbox_ledger.Names.{auth, bank, poa, ibc, feemarket, evm}
use sandbox_ledger.Ante.{HandlerOptions}
use sandbox_ledger.BaseSetup.{keys, o_keys, transient_keys}
use sandbox_ledger.Wiring.{
  App, Ref, sign_modes, callable, by_value, init_chainer, pre_blocker, begin_blocker, end_blocker,
  ante_handler, post_handler,
}

-- `MountKVStores`, `MountObjectStores` and `MountTransientStores`
unfoldable pub mount_stores : App → App
mount_stores app = record app { mounted = app.mounted ++ keys ++ o_keys ++ transient_keys }

-- The hooks of the base application that `NewApp` sets itself.
unfoldable pub set_hooks : App → App
set_hooks app = record app {
  hooks = app.hooks ++ init_chainer ∷ pre_blocker ∷ begin_blocker ∷ end_blocker ∷ [];
}

-- The `options` of `setAnteHandler`.
unfoldable pub ante_handler_options : ℕ → App → HandlerOptions Ref
ante_handler_options max_gas_wanted app = record {
  cdc = some (callable "appCodec");
  account_keeper = some (by_value auth app);
  bank_keeper = some (by_value bank app);
  extension_option_checker = some (callable "HasDynamicFeeExtensionOption");
  evm_keeper = some (by_value evm app);
  ibc_keeper = some (by_value ibc app);
  feegrant_keeper = none;
  fee_market_keeper = some (by_value feemarket app);
  sign_mode_handler = some (sign_modes app.tx_config);
  sig_gas_consumer = some (callable "SigVerificationGasConsumer");
  max_tx_gas_wanted = max_gas_wanted;
  dynamic_fee_checker = true;
  pending_tx_listener = some (callable "onPendingTx");
}

-- `setAnteHandler`, given `HandlerOptions.Validate`
unfoldable pub set_ante_handler : (HandlerOptions Ref → Result (Unit {0})) → ℕ → App → Outcome App
unfolding ante_handler_options
set_ante_handler validate max_gas_wanted app = do
  let app : App = record app { fee_recipient_module = some poa }
  or_panic (validate (ante_handler_options max_gas_wanted app))
  returned (record app {
    ante_options = some (ante_handler_options max_gas_wanted app);
    hooks = app.hooks ++ ante_handler ∷ [];
  })

-- `setPostHandler`, given the result of `posthandler.NewPostHandler`
unfoldable pub set_post_handler : Result (Unit {0}) → App → Outcome App
set_post_handler new_post_handler app = do
  or_panic new_post_handler
  returned (record app { hooks = app.hooks ++ post_handler ∷ [] })
