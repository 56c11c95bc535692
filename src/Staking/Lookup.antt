-- ===== src/Staking/Lookup.antt =====
-- What `GetValidatorByConsAddr` finds, against a plain search of the active validators.
use sandbox_ledger.Base.{
  ◌≡◌, refl, Bool, true, false, Option, none, some, List, [], ◌∷◌, arith, Error, no_validator_found,
  Result, ok, err,
}
use sandbox_ledger.Base.Lists.{find}
use sandbox_ledger.Staking.{
  PoaLib, PoaValidator, Validator, Search, Callback, Iterate, PoaStakingKeeper, match_cons_addr,
  get_validator_by_cons_addr, zero_validator, conclude,
}

module _ (l : PoaLib) where
  -- An active validator: its consensus address, its power, its record.
  abbrev pub Active : Type 0
  Active = l.ConsAddress × l.Power × PoaValidator

  abbrev continue :
      (Bool × Option Error) × Search → (Search → Option Error × Search) → Option Error × Search
  continue ((stop, some e), s) rest = (some e, s)
  continue ((true, none), s) rest = (none, s)
  continue ((false, none), s) rest = rest s

  -- The documented iteration: in order, until the callback stops it or fails. `fails` is the
  -- error, if any, with which the iteration itself ends.
  abbrev pub visit : List Active → Option Error → Callback l → Search → Option Error × Search
  visit [] fails cb s = (fails, s)
  visit ((ca, power, v) ∷ rest) fails cb s = continue (cb ca power v s) (visit rest fails cb)

  -- The answer for the validator that a plain search returns.
  abbrev pub answer : Option Active → Result Validator
  answer none = err no_validator_found
  answer (some (_, _, v)) = elim (l.acc_address_from_bech32 v.operator_address) [
    | err _ ↦ err no_validator_found
    | ok a ↦ ok (record { operator_address = l.val_address_string a })
  ]

  abbrev start : Search
  start = record { found = zero_validator; matched = false }

  conclude-visit :
      (cons_addr : l.ConsAddress) (active : List Active) (fails : Option Error)
      → conclude (visit active fails (match_cons_addr l cons_addr) start)
        ≡ answer (find (λ a. l.equals a.0 cons_addr) active)
  unfolding conclude match_cons_addr
  conclude-visit cons_addr [] none = refl
  conclude-visit cons_addr [] (some e) = refl
  conclude-visit cons_addr ((ca, power, v) ∷ rest) fails =
      ground (arith, conclude-visit cons_addr rest fails)

  -- With a POA keeper whose iteration visits the validators `active` in order, the lookup returns
  -- the first of them whose consensus address equals the given one, its operator address encoded
  -- again as a validator operator's; where none is equal, or the operator address of the first
  -- does not decode, it returns ErrNoValidatorFound, whatever error the iteration met.
  pub get_validator_by_cons_addr-find :
      (iterate : Iterate l) (k : PoaStakingKeeper l) (poa : l.Poa) (active : List Active)
      (fails : Option Error) (cons_addr : l.ConsAddress)
      → k.poa ≡ some poa
      → ((cb : Callback l) (s : Search) → iterate poa cb s ≡ visit active fails cb s)
      → get_validator_by_cons_addr l iterate k cons_addr
        ≡ answer (find (λ a. l.equals a.0 cons_addr) active)
  unfolding get_validator_by_cons_addr
  get_validator_by_cons_addr-find iterate k poa active fails cons_addr wired visits =
      rw (wired, visits (match_cons_addr l cons_addr) start) (conclude-visit cons_addr active fails)
