-- ===== src/Blocks/Replay/Tests.antt =====
-- One account on the sample application, whose state is the account's sequence number.
use mathlib.Core.Path.{subst}
use sandbox_ledger.Names.{ModuleName}
use sandbox_ledger.Blocks.Calls.{Calls, done, then_called, RunsInOrder}
use sandbox_ledger.Blocks.Life.{Node, in_block, delivers, closes, opens, Steps, stays, follows}
use sandbox_ledger.Blocks.{run_pre_blocker, run_begin_blocker, run_end_blocker}
use sandbox_ledger.Blocks.Delivery.{BlockCalls, block_lib, node_with}
use sandbox_ledger.Genesis.Sample.{lib as genesis_lib}
use sandbox_ledger.Modules.Chain.{chain}
use sandbox_ledger.Base.{
  Result, ok, List, Bool, ◌≤◌, ℕ, suc, ◌≡◌, refl, sym, ap, true, false, Option, none, some, [], ◌∷◌,
  Error, returned, arith, ◌≢◌, String,
}
use sandbox_ledger.Ante.{
  HandlerOptions, by_type, new_poa_cosmos_ante_handler, cosmos_decorators, Tx, Decorator,
  AnteHandler, new_poa_evm_ante_handler,
}
use sandbox_ledger.Ante.Chain.{Check}
use sandbox_ledger.Ante.Replay.{Numbers, Grows}
use sandbox_ledger.Wiring.{App, Ref}
use sandbox_ledger.Wiring.Handlers.{ante_handler_options}
use sandbox_ledger.Wiring.Build.{new_app}
use sandbox_ledger.Wiring.Answers.{result}
use sandbox_ledger.Wiring.Complete.{new_app_eq}
use sandbox_ledger.Wiring.Serving.{new_app-get_ante_handler}
use sandbox_ledger.Wiring.Sample.{body_of, env_of, laws_of, pool_of, answers_of}
use sandbox_ledger.Mempool.{Slots}
use sandbox_ledger.Blocks.Signed.{verify, verify-same, delivery_of}
use sandbox_ledger.Blocks.Delivery.{Delivery, is_accepted}
use sandbox_ledger.Blocks.Replay.{HooksGrow, new_app-refuses_again}

abbrev numbered : Check Ref ℕ ℕ ℕ ℕ
numbered (Decorator.sig_verification _ _) seq tx sim = verify seq (body_of tx) seq
numbered (Decorator.increment_sequence _) seq tx sim = (suc seq, none)
numbered _ seq tx sim = (seq, none)

first : {a : ℕ} {r : ℕ × Option Error} → (a, none) ≡ r → r.0 ≡ a
first h = ap (λ (r : ℕ × Option Error). r.0) (sym h)

grows :
    (d : Decorator Ref ℕ ℕ) (tx : Option (Tx ℕ)) (seq seq' : ℕ)
    → numbered d seq tx false ≡ (seq', none)
    → seq ≤ seq'
grows (Decorator.increment_sequence _) tx seq seq' h = let more = first h in omega (arith, more)
grows (Decorator.sig_verification _ _) tx seq seq' h =
    let (_, kept) = verify-same seq (body_of tx) seq seq' h in omega (arith, kept)
grows _ tx seq seq' h = let same = first h in omega (arith, same)

numbers : Numbers numbered
numbers = record {
  Account = Unit;
  signer = λ tx. tt;
  signed = λ tx. tx.body;
  IsOrdered = λ tx. Unit;
  sequence = λ seq a. seq;
  grows = λ d tx seq seq' h a. grows d tx seq seq' h;
  increments_signer = λ accounts tx seq seq' ordered h. first h;
  verifies = λ accounts modes tx seq seq' ordered h. (verify-same seq tx.body seq seq' h).0;
}

abbrev delivery : Delivery ℕ ℕ (Grows numbers)
unfolding numbers
delivery = delivery_of (λ seq seq' same a. omega (arith, same))

abbrev made : App × Slots (pool_of numbered)
made = result (env_of numbered) 7 true [] (answers_of numbered 7 true)

returns : new_app (env_of numbered) 7 true [] ≡ returned made
returns = new_app_eq (env_of numbered) 7 true [] (answers_of numbered 7 true)

abbrev plain_tx : ℕ → Tx ℕ
plain_tx seq = record { extension_options = none; body = seq }

abbrev ethereum_tx : Tx ℕ
ethereum_tx = record { extension_options = some ("/ethereum" ∷ []); body = 0 }

no_extension : ◌≢◌ {A = Option String} none (some "/ethereum")
no_extension h = cc

abbrev set_handler : AnteHandler ℕ ℕ
set_handler = new_poa_evm_ante_handler (env_of numbered).ante (ante_handler_options 7 made.0)

accepts :
    (o : HandlerOptions Ref)
    → new_poa_evm_ante_handler (env_of numbered).ante o 3 (some (plain_tx 3)) false ≡ (4, none)
unfolding new_poa_evm_ante_handler by_type new_poa_cosmos_ante_handler cosmos_decorators
accepts o = refl

-- Hooks that leave the number alone.
abbrev idle_hook : ModuleName → ℕ → Result (Unit {0}) × ℕ
idle_hook m seq = (ok tt, seq)

abbrev calls : BlockCalls ℕ
calls = record {
  ResponsePreBlock = Unit;
  BeginBlock = Unit;
  EndBlock = Unit;
  pre_block = λ m seq. (ok tt, seq);
  begin_block = λ m seq. (ok tt, seq);
  end_block = λ m seq. (ok tt, seq);
}

all_called : (order : List ModuleName) (seq : ℕ) → Calls (λ _. true) idle_hook order seq order seq
all_called [] seq = done
all_called (m ∷ order) seq = then_called refl refl (all_called order seq)

called :
    (order : List ModuleName) (seq seq' : ℕ) (r : Result (Unit {0}))
    → ◌≡◌ {A = Result (Unit {0}) × ℕ} (ok tt, seq) (r, seq')
    → (log : List ModuleName) × Calls (λ _. true) idle_hook order seq log seq'
called order seq seq' r h = (
  order,
  subst (Calls (λ _. true) idle_hook order seq order) (ap (λ (x : Result (Unit {0}) × ℕ). x.1) h)
      (all_called order seq),
)

abbrev runs : RunsInOrder (block_lib calls) (env_of numbered).manager
runs = record {
  has_pre_blocker = λ _. true;
  pre_hook = idle_hook;
  begin_hook = idle_hook;
  end_hook = idle_hook;
  pre = λ _ o seq seq' r h. called o.pre_blockers seq seq' (ok r) h;
  begin = λ _ o seq seq' r h. called o.begin_blockers seq seq' (ok r) h;
  end = λ _ o seq seq' r h. called o.end_blockers seq seq' (ok r) h;
}

hooks_grow :
    (has : ModuleName → Bool)
    → HooksGrow (env_of numbered) (laws_of numbered) numbers delivery has idle_hook
unfolding numbers
hooks_grow has m seq seq' known here h a =
    let same = ap (λ (x : Result (Unit {0}) × ℕ). x.1) h in omega (arith, same)

abbrev node : Node (block_lib calls) chain
node = node_with delivery set_handler (λ state. 0)

-- Two more transactions, the end of the block, and the beginning of the next.
next_block :
    Steps
      (block_lib calls)
      made.0
      chain
      node
      (in_block 5 (delivery.deliver set_handler (plain_tx 3) 3))
      (in_block 6 (
        delivery.deliver set_handler ethereum_tx (
          delivery.deliver set_handler (plain_tx 4) (delivery.deliver set_handler (plain_tx 3) 3))))
unfolding run_pre_blocker run_begin_blocker run_end_blocker
next_block =
    follows
      (follows (follows (follows stays (delivers (plain_tx 4))) (delivers ethereum_tx))
        (closes refl))
      (opens refl refl)

new_app-refuses_again_example :
    is_accepted (
      set_handler
        (delivery.deliver set_handler ethereum_tx
          (delivery.deliver set_handler (plain_tx 4) (delivery.deliver set_handler (plain_tx 3) 3)))
        (some (plain_tx 3))
        false)
    ≡ false
unfolding numbers
new_app-refuses_again_example =
    new_app-refuses_again (env_of numbered) (laws_of numbered) numbers delivery calls runs
      (hooks_grow (λ _. true)) (hooks_grow (λ _. true)) (hooks_grow (λ _. true)) genesis_lib chain
      (λ state. 0) 7 true [] made returns set_handler
      (new_app-get_ante_handler (env_of numbered) 7 true [] made returns) (plain_tx 3) 5 3 4
      no_extension tt (accepts (ante_handler_options 7 made.0)) _ next_block
