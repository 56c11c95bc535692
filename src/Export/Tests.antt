-- ===== src/Export/Tests.antt =====
-- An application whose state is its height, exported.
use sandbox_ledger.Base.{
  ◌-◌, ◌↔◌, ℕ, ◌≡◌, refl, Bool, true, bind_eq, false, [], ◌∷◌, not_viper, Result, ok, err, returned,
  arith, inr, if◌then◌else◌,
}
use sandbox_ledger.Base.Int.{ℤ, pos, negsuc, suc_int64, int64_bound, is_negative}
use sandbox_ledger.Export.{start, ExportLib, ExportedApp, viper, other, app_export}
use sandbox_ledger.Export.Height.{IsInt64, app_export_bounds}
use sandbox_ledger.Export.Laws.{LoadedAt, app_export_lem}
use sandbox_ledger.Wiring.Build.{new_app}
use sandbox_ledger.Wiring.Complete.{new_app_eq}
use sandbox_ledger.Wiring.Sample.{env, answers}

abbrev lib : ExportLib
lib = record {
  App = ℤ;
  Context = ℤ;
  Genesis = ℤ;
  Params = ℤ;
  Viper = ℕ;
  last_block_height = λ app. app;
  new_context_legacy = λ app h. h;
  export_genesis_for_modules = λ app ctx modules. ok app;
  marshal_indent = λ genesis. ok "{}";
  get_consensus_params = λ app ctx. ctx;
  set_inv_check_period = λ v. 1;
  env = λ _. env;
  max_gas_wanted = λ v. v;
  running = λ v latest made. if latest then pos 9 else pos 0;
  load_version = λ h app. ok h;
}

starts : (latest : Bool) (v : ℕ) → start lib latest v ≡ returned (if latest then pos 9 else pos 0)
unfolding start
starts latest v =
    bind_eq (new_app env v latest []) _ (new_app_eq env v latest [] (answers v latest))

abbrev exported : ExportedApp ℤ
exported = record { app_state = "{}"; height = pos 10; consensus_params = pos 9 }

export_latest :
    app_export lib (negsuc 0) false [] (viper 5) ("bank" ∷ []) ≡ returned (ok exported, viper 1)
unfolding app_export suc_int64
export_latest = rw (starts true 1) refl

export_no_viper : app_export lib (pos 4) false [] other [] ≡ returned (err not_viper, other)
unfolding app_export
export_no_viper = refl

loads : (h app app' : ℤ) → Result.ok h ≡ ok app' → app' ≡ h
loads h app app' e = ground arith

app_export_lem_example :
    app_export lib (pos 4) false [] (viper 5) []
    ≡ returned (ok (record { app_state = "{}"; height = pos 5; consensus_params = pos 4 }), viper 1)
app_export_lem_example =
    app_export_lem lib 4 false [] 5 [] (pos 4) "{}" (omega arith) loads
      (inr (refl, (pos 0, starts false 1, refl))) (pos 4, refl, refl)

-- An application at the greatest height there is.
abbrev last_lib : ExportLib
last_lib = record lib {
  App = Unit;
  new_context_legacy = λ app h. h;
  get_consensus_params = λ app ctx. ctx;
  last_block_height = λ app. pos (int64_bound - 1);
  export_genesis_for_modules = λ app ctx modules. ok (pos 0);
  running = λ v latest made. tt;
  load_version = λ h app. ok tt;
}

abbrev wrapped : ExportedApp ℤ
wrapped = record {
  app_state = "{}";
  height = negsuc (int64_bound - 1);
  consensus_params = pos (int64_bound - 1);
}

starts_last : start last_lib true 1 ≡ returned tt
unfolding start
starts_last = bind_eq (new_app env 1 true []) _ (new_app_eq env 1 true [] (answers 1 true))

export_last : app_export last_lib (negsuc 0) false [] (viper 5) [] ≡ returned (ok wrapped, viper 1)
unfolding app_export suc_int64
export_last = rw starts_last refl

app_export_bounds_example :
    (app : Unit) × LoadedAt last_lib (negsuc 0) 1 app
    × IsInt64 wrapped.height
    × ((is_negative wrapped.height ≡ true)
        ↔ (false ≡ false) × (last_lib.last_block_height app ≡ pos (int64_bound - 1)))
app_export_bounds_example =
    app_export_bounds last_lib (negsuc 0) false [] 5 [] wrapped (viper 1)
      (λ app. (int64_bound - 1, refl, omega arith)) export_last
