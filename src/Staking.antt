-- ===== src/Staking.antt =====
-- app/app.go, `poaStakingKeeper`: the adapter by which the EVM and the ERC-20 module look up
-- validators in the POA module, on a chain that has no staking module.
pub mod Lookup
pub mod Operator
mod Tests
use sandbox_ledger.Base.{
  String, Bool, true, false, Option, none, some, Error, no_historical_info, no_validator_found,
  Result, ok, err, if◌then◌else◌,
}

-- The calls that the adapter makes of the POA keeper and of the SDK's address types.
pub record PoaLib : Type 1 where
  pub ConsAddress : Type 0
  pub Address : Type 0
  pub AddrCodec : Type 0
  pub Poa : Type 0
  pub Power : Type 0
  pub equals : ConsAddress → ConsAddress → Bool
  -- `sdk.AccAddressFromBech32`
  pub acc_address_from_bech32 : String → Result Address
  -- `sdk.ValAddress(a).String()`
  pub val_address_string : Address → String

-- `stakingtypes.Validator`, of which the adapter fills one field.
pub record Validator : Type 0 where
  pub operator_address : String

-- The zero value, `stakingtypes.Validator{}`.
abbrev pub zero_validator : Validator
zero_validator = record { operator_address = "" }

-- `poatypes.Validator`, of which the adapter reads `Metadata.OperatorAddress`.
pub record PoaValidator : Type 0 where
  pub operator_address : String

-- The variables that the callback of `GetValidatorByConsAddr` writes.
pub record Search : Type 0 where
  pub found : Validator
  pub matched : Bool

-- The end of `GetValidatorByConsAddr`: an error of the iteration is reported as "not found".
conclude : Option Error × Search → Result Validator
conclude (some e, s) = err no_validator_found
conclude (none, s) = if s.matched then ok s.found else err no_validator_found

module _ (l : PoaLib) where
  open l use {ConsAddress, Address, AddrCodec, Poa, Power, equals}

  -- A callback returns whether to stop and an error, and may write the search's variables.
  abbrev pub Callback : Type 0
  Callback = ConsAddress → Power → PoaValidator → Search → (Bool × Option Error) × Search

  -- `IterateActiveValidators`: an error, and what the callback has written.
  abbrev pub Iterate : Type 0
  Iterate = Poa → Callback → Search → Option Error × Search

  pub record PoaStakingKeeper : Type 0 where
    pub denom : String
    pub addr_codec : AddrCodec
    pub poa : Option Poa

  -- What `NewApp` makes the adapter of: `sdk.DefaultBondDenom`, the prefix of validator addresses in
  -- the SDK's configuration, and `evmaddress.NewEvmCodec`.
  pub record AdapterLib : Type 0 where
    pub default_bond_denom : String
    pub bech32_validator_addr_prefix : String
    pub new_evm_codec : String → AddrCodec

  -- `stakingAdapter` of `NewApp`, over the POA keeper that it captures.
  unfoldable pub new_staking_adapter : AdapterLib → Option Poa → PoaStakingKeeper
  new_staking_adapter a captured = record {
    denom = a.default_bond_denom;
    addr_codec = a.new_evm_codec a.bech32_validator_addr_prefix;
    poa = captured;
  }

  -- `GetHistoricalInfo`
  pub get_historical_info {ℓ} : {Info : Type ℓ} → PoaStakingKeeper → Result Info
  get_historical_info k = err no_historical_info

  -- The matching branch: the account address in the validator's metadata, encoded again as the
  -- address of a validator operator.
  unfoldable pub valoper_of : PoaValidator → Search → (Bool × Option Error) × Search
  valoper_of v s = elim (l.acc_address_from_bech32 v.operator_address) [
    | err conv_err ↦ ((true, some conv_err), s)
    | ok acc_addr ↦ (
      (true, none),
      record {
        found = record { operator_address = l.val_address_string acc_addr };
        matched = true;
      },
    )
  ]

  -- The callback that `GetValidatorByConsAddr` passes to the iteration.
  unfoldable pub match_cons_addr : ConsAddress → Callback
  unfolding valoper_of
  match_cons_addr cons_addr ca _ v s =
      if equals ca cons_addr then valoper_of v s else ((false, none), s)

  module _ (iterate_active_validators : Iterate) where
    -- `GetValidatorByConsAddr`
    unfoldable pub get_validator_by_cons_addr : PoaStakingKeeper → ConsAddress → Result Validator
    unfolding conclude match_cons_addr
    get_validator_by_cons_addr k cons_addr = elim k.poa [
      | none ↦ err no_validator_found
      | some poa ↦ conclude (
          iterate_active_validators poa (match_cons_addr cons_addr)
            (record { found = zero_validator; matched = false }))
    ]

  pub validator_address_codec : PoaStakingKeeper → AddrCodec
  validator_address_codec k = k.addr_codec

  pub bond_denom : PoaStakingKeeper → Result String
  bond_denom k = ok k.denom
