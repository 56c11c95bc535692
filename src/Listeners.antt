-- ===== src/Listeners.antt =====
-- app/app.go, `onPendingTx` and `RegisterPendingTxListener`: the functions that are told of each
-- pending EVM transaction.
pub mod Ethereum
mod Tests
use mathlib.Core.List.{foldl}
use sandbox_ledger.Base.{◌≡◌, refl, ◌∙◌, List, [], ◌∷◌, ◌++◌}

-- A listener acts on the world.
abbrev pub Listener : Type 0 → Type 0 → Type 0
Listener Hash W = Hash → W → W

module _ {Hash W : Type 0} where
  -- The loop of `onPendingTx` over `app.pendingTxListeners`.
  unfoldable pub on_pending_tx : List (Listener Hash W) → Hash → W → W
  on_pending_tx [] hash w = w
  on_pending_tx (l ∷ listeners) hash w = on_pending_tx listeners hash (l hash w)

  -- `RegisterPendingTxListener`, on the same field.
  unfoldable pub register_pending_tx_listener :
      List (Listener Hash W) → Listener Hash W → List (Listener Hash W)
  register_pending_tx_listener listeners l = listeners ++ l ∷ []

  on_pending_tx-register :
      (listeners : List (Listener Hash W)) (l : Listener Hash W) (hash : Hash) (w : W)
      → on_pending_tx (register_pending_tx_listener listeners l) hash w
        ≡ l hash (on_pending_tx listeners hash w)
  unfolding on_pending_tx register_pending_tx_listener
  on_pending_tx-register [] l hash w = refl
  on_pending_tx-register (k ∷ listeners) l hash w =
      on_pending_tx-register listeners l hash (k hash w)

  -- Listeners that are registered one after the other, on top of those that are there, run each
  -- once, after those and in the order of their registration.
  pub on_pending_tx-register_all :
      (new listeners : List (Listener Hash W)) (hash : Hash) (w : W)
      → on_pending_tx (foldl register_pending_tx_listener listeners new) hash w
        ≡ foldl (λ world l. l hash world) (on_pending_tx listeners hash w) new
  on_pending_tx-register_all [] listeners hash w = refl
  on_pending_tx-register_all (l ∷ new) listeners hash w =
      on_pending_tx-register_all new (register_pending_tx_listener listeners l) hash w
      ∙ rw (on_pending_tx-register listeners l hash w)
