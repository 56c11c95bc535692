-- ===== src/Blocks/Tests.antt =====
-- Theorems on blocks at the sample.
use sandbox_ledger.Base.{◌≡◌, true, []}
use sandbox_ledger.Modules.{
  registered_modules, pre_blocker_order, begin_blocker_order, end_blocker_order, listed,
}
use sandbox_ledger.Modules.Sample.{manager}
use sandbox_ledger.Blocks.Once.{Block, CallsOnce, new_app-CallsOnce}
use sandbox_ledger.Blocks.Sample.{
  hook, run, has_pre, lib, runs, refuses, careful, made, returns, prepares, begins, ends,
}

abbrev block : Block lib made.0
block = record {
  start = [];
  prepared = run has_pre pre_blocker_order [];
  begun = run manager.has_begin_blocker begin_blocker_order (run has_pre pre_blocker_order []);
  delivered = [];
  ended = run manager.has_end_blocker end_blocker_order [];
  pre_response = tt;
  begin_response = tt;
  end_response = tt;
  prepares = prepares _;
  begins = begins _;
  ends = ends _;
}

new_app-CallsOnce_example :
    CallsOnce has_pre hook pre_blocker_order
      (λ m. listed m pre_blocker_order ≡ true)
      block.start
      block.prepared
    × CallsOnce manager.has_begin_blocker hook begin_blocker_order
        (λ m. listed m registered_modules ≡ true)
        block.prepared
        block.begun
    × CallsOnce manager.has_end_blocker hook end_blocker_order
        (λ m. listed m registered_modules ≡ true)
        block.delivered
        block.ended
new_app-CallsOnce_example = new_app-CallsOnce careful 7 true [] made returns refuses lib runs block
