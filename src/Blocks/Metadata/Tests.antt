-- ===== src/Blocks/Metadata/Tests.antt =====
-- The sample chain: a context has metadata if the bank stands in it.
use mathlib.Core.Path.{subst}
use sandbox_ledger.Base.{◌∷◌, String, false, ◌≡◌, refl, ap, Bool, true, List, []}
use sandbox_ledger.Names.{ModuleName}
use sandbox_ledger.Modules.{pre_blocker_order, begin_blocker_order, listed}
use sandbox_ledger.Modules.Sample.{manager}
use sandbox_ledger.Genesis.Sample.{lib as genesis_lib, written}
use sandbox_ledger.Blocks.Life.{Node, in_block, Reach, starts, goes_on, opens, HooksKeep}
use sandbox_ledger.Blocks.Sample.{
  hook, run, has_pre, lib, runs, careful, made, returns, prepares, begins,
}
use sandbox_ledger.Modules.Chain.{chain, boot, boots}
use sandbox_ledger.Modules.Sample.{listed_later}
use sandbox_ledger.Genesis.Sample.{laws, init_written}
use sandbox_ledger.Modules.Metadata.{Written, FinishKeeps}
use sandbox_ledger.Blocks.Metadata.{NeverLoses, Reach-has_metadata}
use sandbox_ledger.Names.{bank}

abbrev over : Bool → List ModuleName
over true = bank ∷ []
over false = []

abbrev node : Node lib chain
node = record { Tx = Unit; deliver = λ tx ctx. ctx; context = over }

abbrev has_metadata : List ModuleName → String → Bool
has_metadata ctx d = listed bank ctx

same : (s : Bool) (d : String) → has_metadata (over s) d ≡ s
unfolding listed
same true d = refl
same false d = refl

hook_keeps : (has : ModuleName → Bool) → HooksKeep has hook (λ ctx. listed bank ctx ≡ true)
hook_keeps has m ctx ctx' known here p h =
    subst (λ c. listed bank c ≡ true) (ap (λ o. o.1) p) (listed_later bank m ctx h)

finish_keeps : FinishKeeps boot
finish_keeps s s' response d h had = cc

abbrev keeps : NeverLoses runs node boot
keeps = record {
  has_metadata = has_metadata;
  same = same;
  finish_keeps = finish_keeps;
  pre_keeps = λ d. hook_keeps has_pre;
  begin_keeps = λ d. hook_keeps manager.has_begin_blocker;
  end_keeps = λ d. hook_keeps manager.has_end_blocker;
  txs_keep = λ d tx ctx h. h;
}

read_back : Written genesis_lib chain true
read_back = record {
  raw = _;
  upstream = _;
  genesis = written;
  basic = refl;
  decoded = refl;
  written = init_written;
  read_ok = refl;
}

abbrev begun : List ModuleName
begun =
    run manager.has_begin_blocker begin_blocker_order (run has_pre pre_blocker_order (over true))

in_first_block : Reach lib made.0 chain node true false (in_block 1 begun)
in_first_block = goes_on (starts boots) (opens (prepares _) (begins _))

Reach-has_metadata_example : has_metadata begun "aevm" ≡ true
Reach-has_metadata_example =
    Reach-has_metadata careful 7 true [] made returns lib runs genesis_lib chain node boot laws
      keeps true false read_back (in_block 1 begun) in_first_block
