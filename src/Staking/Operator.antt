-- ===== src/Staking/Operator.antt =====
-- What the EVM decodes from the validator that the adapter returns.
use sandbox_ledger.Base.{
  String, ◌≡◌, refl, sym, ap, ◌∙◌, Option, none, some, List, Error, Result, ok, err, ok_inj,
}
use sandbox_ledger.Base.Lists.{find}
use sandbox_ledger.Staking.{
  PoaLib, Validator, Search, Callback, Iterate, AdapterLib, new_staking_adapter,
  validator_address_codec, get_validator_by_cons_addr,
}
use sandbox_ledger.Staking.Lookup.{Active, visit, answer, get_validator_by_cons_addr-find}

module _ (l : PoaLib) where
  -- What the SDK and `NewEvmCodec` document of addresses: an account address that decodes is
  -- proper; the text of a proper validator address is its Bech32 form with the configured prefix; and
  -- the codec that is made for a prefix decodes the Bech32 form with that prefix of each proper
  -- address.
  pub record Bech32Laws (a : AdapterLib l) : Type 1 where
    pub IsProper : l.Address → Type 0
    pub encode : String → l.Address → String
    pub string_to_bytes : l.AddrCodec → String → Result l.Address
    pub decodes :
        (s : String) (addr : l.Address) → l.acc_address_from_bech32 s ≡ ok addr → IsProper addr
    pub writes :
        (addr : l.Address)
        → IsProper addr
        → l.val_address_string addr ≡ encode a.bech32_validator_addr_prefix addr
    pub reads :
        (prefix : String) (addr : l.Address)
        → IsProper addr
        → string_to_bytes (a.new_evm_codec prefix) (encode prefix addr) ≡ ok addr

  -- The first active validator of a consensus address, and the account of its operator.
  pub record Operator (active : List (Active l)) (cons_addr : l.ConsAddress) (a : l.Address)
      : Type 0 where
    pub validator : Active l
    pub first : find (λ v. l.equals v.0 cons_addr) active ≡ some validator
    pub account : l.acc_address_from_bech32 validator.2.operator_address ≡ ok a

  answer_inv :
      (active : List (Active l)) (cons_addr : l.ConsAddress) (r : Option (Active l)) (v : Validator)
      → find (λ v. l.equals v.0 cons_addr) active ≡ r
      → answer l r ≡ ok v
      → (a : l.Address) × Operator active cons_addr a
        × (v.operator_address ≡ l.val_address_string a)
  answer_inv active cons_addr none v found h = cc
  answer_inv active cons_addr (some w) v found h =
      by_account (l.acc_address_from_bech32 w.2.operator_address) refl
    where
      by_account :
          (r : Result l.Address)
          → l.acc_address_from_bech32 w.2.operator_address ≡ r
          → (a : l.Address) × Operator active cons_addr a
            × (v.operator_address ≡ l.val_address_string a)
      by_account (err e) decoded = let h' = rw (decoded, answer) at h in cc
      by_account (ok a) decoded =
          let h' = rw (decoded, answer) at h in
          (
            a,
            record { validator = w; first = found; account = decoded },
            ap (λ (v : Validator). v.operator_address) (ok_inj h'),
          )

  -- If the lookup of the adapter that `NewApp` makes returns a validator, and addresses are written
  -- and decoded as Bech32 texts with a prefix, then the adapter's own codec decodes the validator's
  -- operator address to the account address of the operator of the first active validator with the
  -- consensus address: `NewApp` gives the adapter the codec of the prefix with which the lookup writes.
  pub get_validator_by_cons_addr-validator_address_codec :
      (iterate : Iterate l) (a : AdapterLib l) (laws : Bech32Laws a) (poa : l.Poa)
      (active : List (Active l)) (fails : Option Error) (cons_addr : l.ConsAddress) (v : Validator)
      → ((cb : Callback l) (s : Search) → iterate poa cb s ≡ visit l active fails cb s)
      → get_validator_by_cons_addr l iterate (new_staking_adapter l a (some poa)) cons_addr ≡ ok v
      → (addr : l.Address) × Operator active cons_addr addr
        × (laws.string_to_bytes
              (validator_address_codec l (new_staking_adapter l a (some poa)))
              v.operator_address
            ≡ ok addr)
  unfolding validator_address_codec new_staking_adapter
  get_validator_by_cons_addr-validator_address_codec iterate a laws poa active fails cons_addr v
        visits h =
      let k = new_staking_adapter l a (some poa) in
      let found =
        get_validator_by_cons_addr-find l iterate k poa active fails cons_addr refl visits in
      let (addr, operator, written) =
        answer_inv active cons_addr (find (λ v. l.equals v.0 cons_addr) active) v refl
          (sym found ∙ h) in
      let proper = laws.decodes _ addr operator.account in
      (
        addr,
        operator,
        ap (laws.string_to_bytes (a.new_evm_codec a.bech32_validator_addr_prefix))
              (written ∙ laws.writes addr proper)
            ∙ laws.reads a.bech32_validator_addr_prefix addr proper,
      )
