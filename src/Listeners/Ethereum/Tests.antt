-- ===== src/Listeners/Ethereum/Tests.antt =====
-- Two listeners that write what they hear, and an Ethereum transaction with one hash.
use mathlib.Core.List.{foldl}
use sandbox_ledger.Base.{
  ℕ, ◌≡◌, refl, sym, ap, true, false, Option, none, some, List, [], ◌∷◌, Error, returned,
}
use sandbox_ledger.Ante.{
  Tx, Decorator, AnteHandler, new_poa_evm_ante_handler, new_evm_ante_handler, evm_decorators,
}
use sandbox_ledger.Ante.Chain.{Check}
use sandbox_ledger.Ante.Routing.{passes_evm_chain}
use sandbox_ledger.Wiring.{App, Ref}
use sandbox_ledger.Wiring.Accessors.{get_ante_handler}
use sandbox_ledger.Wiring.Handlers.{ante_handler_options}
use sandbox_ledger.Wiring.Build.{new_app}
use sandbox_ledger.Wiring.Answers.{result}
use sandbox_ledger.Wiring.Complete.{new_app_eq}
use sandbox_ledger.Wiring.Sample.{body_of, env_of, laws_of, pool_of, answers_of}
use sandbox_ledger.Wiring.Serving.{new_app-get_ante_handler}
use sandbox_ledger.Mempool.{Slots}
use sandbox_ledger.Listeners.{Listener, on_pending_tx, register_pending_tx_listener}
use sandbox_ledger.Listeners.Ethereum.{Tells, registered, new_app-tells}

abbrev Heard : Type 0
Heard = List (ℕ × ℕ)

abbrev tagged : ℕ → Listener ℕ Heard
tagged tag hash heard = (tag, hash) ∷ heard

abbrev two : List (Listener ℕ Heard)
two = tagged 1 ∷ tagged 2 ∷ []

-- A state is what was heard, and a transaction's body its hash.
abbrev listening : Check Ref ℕ ℕ Heard ℕ
listening (Decorator.tx_listener (some _)) heard tx sim =
    ((2, body_of tx) ∷ (1, body_of tx) ∷ heard, none)
listening _ heard tx sim = (heard, none)

accepted-keeps :
    (heard heard' : Heard) (r : Heard × Option Error)
    → ◌≡◌ {A = Heard × Option Error} (heard, none) (heard', none)
    → heard' ≡ heard
accepted-keeps heard heard' r h = ap (λ (r : Heard × Option Error). r.0) (sym h)

tells : Tells (env_of listening) (laws_of listening) ℕ Heard (registered two)
unfolding on_pending_tx register_pending_tx_listener
tells = record {
  world = λ heard. heard;
  hashes = λ tx. body_of tx ∷ [];
  is_check = λ heard. true;
  told = λ tx heard heard' check h. ap (λ (r : Heard × Option Error). r.0) (sym h);
  mono_keeps =
      λ a m v gas p f tx heard heard' h. (ap (λ (r : Heard × Option Error). r.0) (sym h), refl);
}

abbrev made : App × Slots (pool_of listening)
made = result (env_of listening) 7 true [] (answers_of listening 7 true)

returns : new_app (env_of listening) 7 true [] ≡ returned made
returns = new_app_eq (env_of listening) 7 true [] (answers_of listening 7 true)

abbrev ethereum_tx : Option (Tx ℕ)
ethereum_tx = some (record { extension_options = some ("/ethereum" ∷ []); body = 9 })

abbrev handler : AnteHandler Heard ℕ
handler = new_poa_evm_ante_handler (env_of listening).ante (ante_handler_options 7 made.0)

handler_set : get_ante_handler (env_of listening) made.0 ≡ some handler
handler_set = new_app-get_ante_handler (env_of listening) 7 true [] made returns

accepts : handler [] ethereum_tx false ≡ ((2, 9) ∷ (1, 9) ∷ [], none)
unfolding new_evm_ante_handler evm_decorators ante_handler_options
accepts =
    passes_evm_chain (env_of listening).ante (ante_handler_options 7 made.0) [] ethereum_tx false
      refl

new_app-tells_example :
    (2, 9) ∷ (1, 9) ∷ []
    ≡ foldl (λ heard hash. foldl (λ heard l. l hash heard) heard two) [] (9 ∷ [])
unfolding tells
new_app-tells_example =
    new_app-tells (env_of listening) (laws_of listening) ℕ Heard 7 true [] made returns two tells
      handler ethereum_tx [] ((2, 9) ∷ (1, 9) ∷ []) handler_set refl refl accepts
