-- ===== src/Listeners/Tests.antt =====
-- Listeners that write what they hear into a list.
use sandbox_ledger.Base.{ℕ, ◌≡◌, refl, List, [], ◌∷◌}
use sandbox_ledger.Listeners.{Listener, on_pending_tx, register_pending_tx_listener}

abbrev tagged : ℕ → Listener ℕ (List (ℕ × ℕ))
tagged tag hash heard = (tag, hash) ∷ heard

abbrev registered : List (Listener ℕ (List (ℕ × ℕ)))
registered =
    register_pending_tx_listener (register_pending_tx_listener (tagged 0 ∷ []) (tagged 1))
      (tagged 2)

all_hear : on_pending_tx registered 7 [] ≡ (2, 7) ∷ (1, 7) ∷ (0, 7) ∷ []
unfolding on_pending_tx register_pending_tx_listener
all_hear = refl
