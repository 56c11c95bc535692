-- ===== src/ChainId.antt =====
-- app/app.go, `chainIDFromOpts`: the chain id that the server's start command gives to the
-- application.
mod Tests
use sandbox_ledger.Base.{
  String, ◌≡◌, refl, Option, none, some, Result, ok, err, if◌then◌else◌, ◌==◌, arith, eq_iff, Bool,
  true, false,
}

-- What `chainIDFromOpts` reads: options by their flags, as `cast.ToString` gives them, and a file.
pub record ChainIdLib : Type 1 where
  pub Opts : Type 0
  pub chain_id_flag : Opts → String
  pub home_flag : Opts → String
  -- `filepath.Join(home, "config", "genesis.json")`
  pub genesis_file : String → String
  -- the chain id of `genutiltypes.AppGenesisFromFile`
  pub chain_id_of_file : String → Result String

module _ (l : ChainIdLib) where
  from_file : Result String → String → String
  from_file (ok file_id) chain_id = file_id
  from_file (err _) chain_id = chain_id

  -- `chainIDFromOpts`
  unfoldable pub chain_id_from_opts : l.Opts → String
  unfolding from_file
  chain_id_from_opts opts =
      let chain_id = l.chain_id_flag opts in
      if chain_id == ""
      then (let home = l.home_flag opts in
          if home == ""
          then chain_id
          else from_file (l.chain_id_of_file (l.genesis_file home)) chain_id)
      else chain_id

  -- A text that is given: not the empty one.
  abbrev pub given : String → Option String
  given s = if s == "" then none else some s

  abbrev pub if_readable : Result String → Option String
  if_readable (ok s) = some s
  if_readable (err _) = none

  infixr 20 ◌or_else◌
  abbrev pub ◌or_else◌ : Option String → Option String → Option String
  none or_else b = b
  some s or_else b = some s

  infixl 25 ◌and_then◌
  abbrev pub ◌and_then◌ : Option String → (String → Option String) → Option String
  none and_then f = none
  some s and_then f = f s

  abbrev pub or_empty : Option String → String
  or_empty none = ""
  or_empty (some s) = s

  -- The chain id by its sources: the flag, if that is given; otherwise the genesis file below the
  -- home directory, if a home is given and the file can be read; otherwise it is empty.
  abbrev pub by_sources : l.Opts → String
  by_sources opts = or_empty (
      given (l.chain_id_flag opts)
      or_else (given (l.home_flag opts)
          and_then (λ home. if_readable (l.chain_id_of_file (l.genesis_file home)))))

  -- The chain id is the flag's, if that is given; otherwise that of the genesis file below the home
  -- directory, if a home is given and the file can be read; otherwise it is empty.
  pub chain_id_from_opts-sources : (opts : l.Opts) → chain_id_from_opts opts ≡ by_sources opts
  unfolding chain_id_from_opts
  chain_id_from_opts-sources opts = ground (arith, eq_iff (l.chain_id_flag opts) "")
