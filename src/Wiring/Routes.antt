-- ===== src/Wiring/Routes.antt =====
-- What the IBC core of a finished application routes packets to.
use sandbox_ledger.Base.{List, [], ◌∷◌}
use sandbox_ledger.Names.{ModuleName, transfer, gmp, erc20}
use sandbox_ledger.Wiring.{
  Ref, Port, IbcModule, transfer_v2, erc20_v2, gmp_module, callbacks_v2, address,
}

-- The stack behind a port, as the v2 router finds it.
abbrev pub ports : List (Port × IbcModule) → List Port
ports [] = []
ports ((port, _) ∷ routes) = port ∷ ports routes

-- The modules that see a packet of a stack, the outermost first, and who hears of its callbacks.
abbrev pub layers : IbcModule → List ModuleName
layers (transfer_v2 r) = transfer ∷ []
layers (erc20_v2 m r) = erc20 ∷ layers m
layers (gmp_module r) = gmp ∷ []
layers (callbacks_v2 m _ (address contract) _ _) = contract ∷ layers m
layers (callbacks_v2 m _ _ _ _) = layers m

abbrev pub names : List (ModuleName × List Ref) → List ModuleName
names [] = []
names ((m, _) ∷ ms) = m ∷ names ms

abbrev pub all_layers : List (Port × IbcModule) → List (List ModuleName)
all_layers [] = []
all_layers ((_, stack) ∷ routes) = layers stack ∷ all_layers routes
