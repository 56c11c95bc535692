-- ===== src/Wiring/Settings/Tests.antt =====
-- The sample application, whose options list two heights.
use sandbox_ledger.Base.{◌≡◌, refl, true, false, [], returned}
use sandbox_ledger.Base.Int.{pos}
use sandbox_ledger.Mempool.{Slots}
use sandbox_ledger.Wiring.{App}
use sandbox_ledger.Wiring.Build.{new_app}
use sandbox_ledger.Wiring.Keepers.{skip_heights}
use sandbox_ledger.Wiring.Answers.{result}
use sandbox_ledger.Wiring.Complete.{new_app_eq}
use sandbox_ledger.Wiring.Sample.{pool, env, answers}
use sandbox_ledger.Wiring.Settings.{HasSettings, new_app-HasSettings}

skips_70 : skip_heights env.unsafe_skip_upgrades (λ _. false) (pos 70) ≡ true
unfolding skip_heights
skips_70 = refl

runs_71 : skip_heights env.unsafe_skip_upgrades (λ _. false) (pos 71) ≡ false
unfolding skip_heights
runs_71 = refl

abbrev made : App × Slots pool
made = result env 7 true [] (answers 7 true)

returns : new_app env 7 true [] ≡ returned made
returns = new_app_eq env 7 true [] (answers 7 true)

new_app-HasSettings_example : HasSettings env 7 made.0
new_app-HasSettings_example = new_app-HasSettings env 7 true [] made returns
