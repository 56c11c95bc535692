-- ===== src/Export/Laws.antt =====
-- What `appExport` exports, and when.
use sandbox_ledger.Base.{
  ℕ, ◌+◌, ◌<◌, String, ◌≡◌, refl, Bool, true, false, List, Result, ok, err, returned, arith,
  if◌then◌else◌, ◌⊎◌, inl, inr, Bool-cases, >>=-eq-returned,
}
use sandbox_ledger.Base.Int.{ℤ, pos, is_minus_one, suc_int64, int64_bound}
use sandbox_ledger.Export.{
  ExportedApp, AppOptions, viper, ExportLib, app_export, export_app_state_and_validators,
  export_loaded, load_height, start, export_genesis,
}

suc_int64-pos : (n : ℕ) → n + 1 < int64_bound → suc_int64 (pos n) ≡ pos (n + 1)
unfolding suc_int64
suc_int64-pos n h = ground arith

module _ (l : ExportLib) where
  -- The height that is written for an application whose last block has height `h`.
  abbrev pub next_height : Bool → ℤ → ℤ
  next_height for_zero_height h = if for_zero_height then pos 0 else suc_int64 h

  -- The modules' states, and their text, as they are exported from an application.
  abbrev pub ExportsState : l.App → List String → String → Type 0
  ExportsState app modules text =
      (genesis : l.Genesis) × (l.export_genesis_for_modules app
          (l.new_context_legacy app (l.last_block_height app)) modules
        ≡ ok genesis)
      × (l.marshal_indent genesis ≡ ok text)

  -- The application that an export at a height works on: the latest version for -1, and otherwise
  -- that height, loaded into an application that has not loaded any.
  abbrev pub LoadedAt : ℤ → l.Viper → l.App → Type 0
  LoadedAt height v app =
      ((is_minus_one height ≡ true) × (start l true v ≡ returned app))
      ⊎ ((is_minus_one height ≡ false)
          × ((unloaded : l.App) × (start l false v ≡ returned unloaded)
              × (l.load_version height unloaded ≡ ok app)))

  -- `LoadVersion` leaves the application at the version that it loads.
  abbrev pub LoadsVersions : Type 0
  LoadsVersions =
      (h : ℤ) (app app' : l.App) → l.load_version h app ≡ ok app' → l.last_block_height app' ≡ h

  -- An export at block height `n`, where the application can be made and the height loaded, and
  -- the modules' states exported and written, succeeds: it has that text, and height `n + 1`, or 0
  -- if it is for height zero. The options come back with the invariant check period set.
  pub app_export_lem :
      (n : ℕ) (for_zero : Bool) (jailed : List String) (v : l.Viper) (modules : List String)
      (app : l.App) (text : String)
      → n + 1 < int64_bound
      → LoadsVersions
      → LoadedAt (pos n) (l.set_inv_check_period v) app
      → ExportsState app modules text
      → app_export l (pos n) for_zero jailed (viper v) modules
        ≡ returned (
          ok (record {
            app_state = text;
            height = if for_zero then pos 0 else pos (n + 1);
            consensus_params = l.get_consensus_params app (l.new_context_legacy app (pos n));
          }),
          viper (l.set_inv_check_period v),
        )
  unfolding app_export
  app_export_lem n for_zero jailed v modules app text small loads (inl (latest, _)) exported = cc
  app_export_lem n for_zero jailed v modules app text small loads
        (inr (_, (unloaded, made, loaded))) (genesis, states, written) =
      let at_n = loads (pos n) unloaded app loaded in
      rw (
        made,
        loaded,
        export_app_state_and_validators,
        states,
        export_genesis,
        written,
        at_n,
        suc_int64-pos n small,
      )

  module _ (for_zero : Bool) (jailed modules : List String) (e : ExportedApp l.Params) where
    -- The states that `e` was made of, and its height.
    abbrev ExportedFrom : l.App → Type 0
    ExportedFrom app =
        ExportsState app modules e.app_state
        × (e.height ≡ next_height for_zero (l.last_block_height app))

    export_genesis-ok :
        (app : l.App) (ctx : l.Context) (height : ℤ) (genesis : l.Genesis)
        → export_genesis l app ctx height genesis ≡ ok e
        → (l.marshal_indent genesis ≡ ok e.app_state) × (e.height ≡ height)
    unfolding export_genesis
    export_genesis-ok app ctx height genesis h = ground arith

    export_app_state_and_validators-ok :
        (app : l.App)
        → export_app_state_and_validators l app for_zero jailed modules ≡ ok e
        → ExportedFrom app
    unfolding export_app_state_and_validators
    export_app_state_and_validators-ok app h =
        go
          (l.export_genesis_for_modules app (l.new_context_legacy app (l.last_block_height app))
            modules)
          refl
      where
        go :
            (r : Result l.Genesis)
            → l.export_genesis_for_modules app
                (l.new_context_legacy app (l.last_block_height app))
                modules
              ≡ r
            → ExportedFrom app
        go (err x) states = let h' = rw (states, export_app_state_and_validators) at h in cc
        go (ok genesis) states =
            let (written, same) =
              export_genesis-ok app _ _ genesis
                (rw (states, export_app_state_and_validators) at h) in
            ((genesis, states, written), same)

    export_loaded-ok :
        (r : Result l.App)
        → export_loaded l r for_zero jailed modules ≡ ok e
        → (app : l.App) × (r ≡ ok app) × ExportedFrom app
    unfolding export_loaded
    export_loaded-ok (ok app) h = (app, refl, export_app_state_and_validators-ok app h)
    export_loaded-ok (err x) h = cc

  -- What an export that succeeds has exported: the states of an application at the height that was
  -- asked for, -1 for the latest version, under the next height or 0.
  pub app_export-ok :
      (height : ℤ) (for_zero : Bool) (jailed : List String) (v : l.Viper) (modules : List String)
      (e : ExportedApp l.Params) (o : AppOptions l.Viper)
      → app_export l height for_zero jailed (viper v) modules ≡ returned (ok e, o)
      → (app : l.App) × LoadedAt height (l.set_inv_check_period v) app
        × ExportsState app modules e.app_state
        × (e.height ≡ next_height for_zero (l.last_block_height app))
  unfolding app_export
  app_export-ok height for_zero jailed v modules e o h = elim (Bool-cases (is_minus_one height)) [
    | inl latest ↦
        let (app, made, result) =
          >>=-eq-returned (start l true opts)
            (λ app.
              returned (export_app_state_and_validators l app for_zero jailed modules, viper opts))
            (rw (latest, app_export) at h) in
        let (states, same) =
          export_app_state_and_validators-ok for_zero jailed modules e app (ground arith) in
        (app, inl (latest, made), states, same)
    | inr at_height ↦
        let (unloaded, made, result) =
          >>=-eq-returned (start l false opts)
            (λ app.
              returned
                (export_loaded l (load_height l height app) for_zero jailed modules, viper opts))
            (rw (at_height, app_export) at h) in
        let (app, loaded, from) =
          export_loaded-ok for_zero jailed modules e (l.load_version height unloaded)
            (ground arith) in
        (app, inr (at_height, (unloaded, made, loaded)), from.0, from.1)
  ]
    where
      opts : l.Viper
      opts = l.set_inv_check_period v
