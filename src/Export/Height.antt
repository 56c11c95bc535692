-- ===== src/Export/Height.antt =====
-- The height of an export is an `int64`, and wraps at its end.
use mathlib.Core.Path.{subst}
use sandbox_ledger.Base.{
  ℕ, ◌-◌, ◌<◌, String, ◌≡◌, refl, ◌↔◌, sym, ap, ◌∙◌, Bool, true, false, List, ok, returned, arith,
}
use sandbox_ledger.Base.Int.{is_negative, ℤ, pos, negsuc, suc_int64, int64_bound}
use sandbox_ledger.Export.{ExportLib, ExportedApp, AppOptions, viper, app_export}
use sandbox_ledger.Export.Laws.{LoadedAt, next_height, app_export-ok}

abbrev pub IsInt64 : ℤ → Type 0
IsInt64 (pos n) = n < int64_bound
IsInt64 (negsuc n) = n < int64_bound

suc_int64_bounds :
    (n : ℕ)
    → n < int64_bound
    → IsInt64 (suc_int64 (pos n))
      × ((is_negative (suc_int64 (pos n)) ≡ true) ↔ (n ≡ int64_bound - 1))
unfolding suc_int64
suc_int64_bounds n b = ground arith

pos_inj : {m n : ℕ} → pos m ≡ pos n → m ≡ n
pos_inj h = cc

-- The heights of the last blocks are those of `int64` that are not negative.
abbrev pub HasHeights : ExportLib → Type 0
HasHeights l = (app : l.App) → (n : ℕ) × (l.last_block_height app ≡ pos n) × (n < int64_bound)

next_height_bounds :
    (l : ExportLib) (for_zero : Bool) (n : ℕ)
    → n < int64_bound
    → IsInt64 (next_height l for_zero (pos n))
      × ((is_negative (next_height l for_zero (pos n)) ≡ true)
          ↔ (for_zero ≡ false) × (n ≡ int64_bound - 1))
next_height_bounds l true n b = (omega arith, (λ h. cc, λ (h, _). cc))
next_height_bounds l false n b =
    let (bound, wraps) = suc_int64_bounds n b in
    (bound, (λ h. (refl, wraps.0 h), λ (_, h). wraps.1 h))

-- The height of an export that succeeds is in the range of `int64`. It is negative, since the next
-- height wraps around, exactly if the last block of the loaded application has the greatest height
-- there is and the export is not for height zero.
pub app_export_bounds :
    (l : ExportLib) (height : ℤ) (for_zero : Bool) (jailed : List String) (v : l.Viper)
    (modules : List String) (e : ExportedApp l.Params) (o : AppOptions l.Viper)
    → HasHeights l
    → app_export l height for_zero jailed (viper v) modules ≡ returned (ok e, o)
    → (app : l.App) × LoadedAt l height (l.set_inv_check_period v) app
      × IsInt64 e.height
      × ((is_negative e.height ≡ true)
          ↔ (for_zero ≡ false) × (l.last_block_height app ≡ pos (int64_bound - 1)))
app_export_bounds l height for_zero jailed v modules e o heights h =
    let (app, loaded, _, same) = app_export-ok l height for_zero jailed v modules e o h in
    let (n, last, b) = heights app in
    let (bound, wraps) = next_height_bounds l for_zero n b in
    let at_n = same ∙ ap (next_height l for_zero) last in
    (
      app,
      loaded,
      subst IsInt64 (sym at_n) bound,
      (
        λ negative.
            let (z, max) = wraps.0 (sym (ap is_negative at_n) ∙ negative) in (z, last ∙ ap pos max),
        λ (z, max). ap is_negative at_n ∙ wraps.1 (z, pos_inj (sym last ∙ max)),
      ),
    )
