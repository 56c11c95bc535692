-- ===== src/ChainId/Tests.antt =====
-- The three sources of the chain id.
use Prim.Native.String.{◌++◌ as append}
use sandbox_ledger.Base.{String, ◌≡◌, refl, ok, err, foreign, if◌then◌else◌, ◌==◌}
use sandbox_ledger.ChainId.{ChainIdLib, chain_id_from_opts}

abbrev lib : ChainIdLib
lib = record {
  Opts = String × String;
  chain_id_flag = λ o. o.0;
  home_flag = λ o. o.1;
  genesis_file = λ home. append home "/config/genesis.json";
  chain_id_of_file =
      λ f. if f == "/data/config/genesis.json" then ok "sandbox-1" else err (foreign f);
}

by_flag : chain_id_from_opts lib ("dev", "/data") ≡ "dev"
unfolding chain_id_from_opts
by_flag = refl

by_file : chain_id_from_opts lib ("", "/data") ≡ "sandbox-1"
unfolding chain_id_from_opts
by_file = refl

unreadable : chain_id_from_opts lib ("", "/none") ≡ ""
unfolding chain_id_from_opts
unreadable = refl
