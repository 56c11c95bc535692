-- ===== src/Modules/Chain.antt =====
-- A chain whose state is whether the bank has metadata.
use sandbox_ledger.Base.{
  String, ◌≡◌, refl, ◌≢◌, Bool, true, false, List, [], ◌∷◌, Error, foreign, Result, ok, err,
  Outcome, returned, panicked, ◌>>=◌, arith, if◌then◌else◌,
}
use sandbox_ledger.Base.Lists.{All}
use sandbox_ledger.Names.{ModuleName, bank, evm}
use sandbox_ledger.Genesis.{Metadata, BankGenesis, basic_overrides}
use sandbox_ledger.Genesis.Sample.{Doc, lib, written}
use sandbox_ledger.Modules.{InitLib, init_chainer, genesis_module_order}
use sandbox_ledger.Modules.Boot.{BootLaws, run}

abbrev pub missing : Error
missing = foreign "denom metadata aevm could not be found"

abbrev pub init : ModuleName → Doc → Bool → Outcome Bool
init bank raw s = returned true
init evm raw s = if s then returned s else panicked missing
init _ raw s = returned s

abbrev pub finish : Bool → Outcome (Result Bool × Bool)
finish s = returned (ok s, s)

abbrev pub chain : InitLib lib
chain = record {
  Bytes = Bool;
  State = Bool;
  Response = Bool;
  unmarshal = λ bytes. if bytes then ok written else err (foreign "json");
  set_module_version_map = λ s. ok s;
  init_genesis = λ order genesis s. run init order genesis s >>= finish;
}

pub present_everywhere : (ms : List Metadata) → All (λ m. ◌≡◌ {A = Bool} true true) ms
present_everywhere [] = tt
present_everywhere (m ∷ ms) = (refl, present_everywhere ms)

pub bank_sets :
    (raw : Doc) (gs : BankGenesis Unit) (s s' : Bool)
    → lib.must_unmarshal_bank raw ≡ returned gs
    → init bank raw s ≡ returned s'
    → All (λ m. s' ≡ true) gs.denom_metadata
bank_sets raw gs s true decoded done = present_everywhere gs.denom_metadata
bank_sets raw gs s false decoded done = cc

pub keeps :
    (m : ModuleName) (raw : Doc) (s s' : Bool) (denom : String)
    → init m raw s ≡ returned s'
    → s ≡ true
    → s' ≡ true
keeps bank raw s s' denom done had = ground arith
keeps _ raw s s' denom done had = ground arith

pub others_miss_nothing :
    (m : ModuleName) (raw : Doc) (s : Bool) → m ≢ evm → init m raw s ≢ panicked missing
others_miss_nothing evm raw s other p = other refl
others_miss_nothing _ raw s other p = cc

pub evm_misses : (raw : Doc) (s : Bool) → init evm raw s ≡ panicked missing → s ≡ false
evm_misses raw s p = ground arith

pub finish_misses_nothing : (s : Bool) → finish s ≢ panicked missing
finish_misses_nothing s p = cc

abbrev pub boot : BootLaws chain
boot = record {
  init = init;
  finish = finish;
  in_order = λ order genesis s. refl;
  has_metadata = λ s denom. s;
  bank_sets = bank_sets;
  keeps = keeps;
  missing_metadata = missing;
  evm_misses = evm_misses;
  others_miss_nothing = others_miss_nothing;
  finish_misses_nothing = finish_misses_nothing;
}

pub boots : init_chainer chain true false ≡ returned (ok true, true)
unfolding init_chainer genesis_module_order basic_overrides
boots = refl
