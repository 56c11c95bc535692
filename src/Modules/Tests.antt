-- ===== src/Modules/Tests.antt =====
-- A chain whose state is whether the bank has metadata, and the orders at a module manager that
-- looks at every registered module.
use sandbox_ledger.Base.{◌≡◌, refl, ◌≢◌, true, false, returned, panicked}
use sandbox_ledger.Genesis.Sample.{laws, written, init_written}
use sandbox_ledger.Modules.{HookOrders, set_module_orders, init_chainer}
use sandbox_ledger.Modules.Orders.{WellOrdered, set_module_orders-WellOrdered}
use sandbox_ledger.Modules.Boot.{init_chainer-metadata}
use sandbox_ledger.Modules.Chain.{missing, chain, boot}
use sandbox_ledger.Modules.Sample.{manager, passes, hooks}

set_module_orders-WellOrdered_example :
    (orders : HookOrders) × (set_module_orders manager ≡ returned orders)
    × WellOrdered orders.pre_blockers
    × WellOrdered orders.begin_blockers
    × WellOrdered orders.end_blockers
    × WellOrdered orders.init_genesis
    × WellOrdered orders.export_genesis
set_module_orders-WellOrdered_example = set_module_orders-WellOrdered manager hooks passes

init_chainer-metadata_example : init_chainer chain true false ≢ panicked missing
init_chainer-metadata_example =
    init_chainer-metadata chain boot laws _ _ written true false false refl refl init_written refl
      refl
