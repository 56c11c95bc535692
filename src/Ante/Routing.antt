-- ===== src/Ante/Routing.antt =====
-- Which of the two chains a transaction passes, against a relation that says it by cases.
use sandbox_ledger.Base.{
  String, ◌≡◌, refl, ◌≢◌, ◌∙◌, Bool, Option, none, some, List, [], ◌∷◌, arith, Error,
  unknown_extension_options, unknown_request, ◌⊎◌, inl, inr, Bool-cases, ◌==◌, eq→≡, eq→≢, eq_iff,
  if◌then◌else◌, sym, some_inj,
}
use sandbox_ledger.Ante.{
  Tx, HandlerOptions, AnteHandler, AnteLib, first_extension, new_evm_ante_handler,
  new_poa_cosmos_ante_handler, new_poa_evm_ante_handler,
}

pub data Route : Type 0 where
  evm_chain cosmos_chain : Route
  refuse : Error → Route

module _ {K F V C B : Type 0} (l : AnteLib K F V C B) where
  abbrev pub NoExtension : Tx B → Type 0
  NoExtension t = (t.extension_options ≡ none) ⊎ (t.extension_options ≡ some [])

  -- `url` is the first extension option, whatever follows it.
  abbrev pub FirstExtension : String → Tx B → Type 0
  FirstExtension url t = (rest : List String) × (t.extension_options ≡ some (url ∷ rest))

  -- The route of a transaction.
  pub data Routes (tx : Option (Tx B)) : Route → Type 0 where
    nil_tx : tx ≡ none → Routes tx (refuse unknown_request)
    plain : (t : Tx B) → tx ≡ some t → NoExtension t → Routes tx cosmos_chain
    ethereum : (t : Tx B) → tx ≡ some t → FirstExtension l.ethereum_tx_url t → Routes tx evm_chain
    dynamic_fee :
        (t : Tx B)
        → tx ≡ some t
        → FirstExtension l.dynamic_fee_tx_url t
        → l.dynamic_fee_tx_url ≢ l.ethereum_tx_url
        → Routes tx cosmos_chain
    unsupported :
        (t : Tx B) (url : String)
        → tx ≡ some t
        → FirstExtension url t
        → url ≢ l.ethereum_tx_url
        → url ≢ l.dynamic_fee_tx_url
        → Routes tx (refuse (unknown_extension_options url))

  abbrev by_url : String → Route
  by_url url =
      if url == l.ethereum_tx_url
      then evm_chain
      else if url == l.dynamic_fee_tx_url
      then cosmos_chain
      else refuse (unknown_extension_options url)

  abbrev by_options : Option (List String) → Route
  by_options none = cosmos_chain
  by_options (some []) = cosmos_chain
  by_options (some (url ∷ _)) = by_url url

  abbrev classify : Option (Tx B) → Route
  classify none = refuse unknown_request
  classify (some t) = by_options t.extension_options

  classify-url :
      (t : Tx B) (url : String) (rest : List String)
      → t.extension_options ≡ some (url ∷ rest)
      → Routes (some t) (by_url url)
  classify-url t url rest e = elim (Bool-cases (url == l.ethereum_tx_url)) [
    | inl eth ↦ rw eth (ethereum t refl (rest, rw (← eq→≡ _ _ eth) e))
    | inr other ↦ elim (Bool-cases (url == l.dynamic_fee_tx_url)) [
      | inl dyn ↦
          let same = eq→≡ _ _ dyn in
          rw (other, dyn)
            (dynamic_fee t refl (rest, rw (← same) e) (λ p. eq→≢ _ _ other (same ∙ p)))
      | inr unknown ↦
          rw (other, unknown) (unsupported t url refl (rest, e) (eq→≢ _ _ other) (eq→≢ _ _ unknown))
    ]
  ]

  classify-Routes : (tx : Option (Tx B)) → Routes tx (classify tx)
  classify-Routes none = nil_tx refl
  classify-Routes (some t) = go t.extension_options refl
    where
      go : (o : Option (List String)) → t.extension_options ≡ o → Routes (some t) (by_options o)
      go none e = plain t refl (inl e)
      go (some []) e = plain t refl (inr e)
      go (some (url ∷ rest)) e = classify-url t url rest e

  Routes-classify : (tx : Option (Tx B)) (r : Route) → Routes tx r → r ≡ classify tx
  Routes-classify tx r (nil_tx e) = rw e
  Routes-classify tx r (plain t e (inl no_options)) = rw (e, no_options)
  Routes-classify tx r (plain t e (inr no_options)) = rw (e, no_options)
  Routes-classify tx r (ethereum t e (rest, first)) =
      rw (e, first) (ground (arith, eq_iff l.ethereum_tx_url l.ethereum_tx_url))
  Routes-classify tx r (dynamic_fee t e (rest, first) other) =
      rw (e, first)
        (ground (
          arith,
          eq_iff l.dynamic_fee_tx_url l.ethereum_tx_url,
          eq_iff l.dynamic_fee_tx_url l.dynamic_fee_tx_url,
        ))
  Routes-classify tx r (unsupported t url e (rest, first) not_eth not_dyn) =
      rw (e, first) (ground (arith, eq_iff url l.ethereum_tx_url, eq_iff url l.dynamic_fee_tx_url))

  module _ (o : HandlerOptions K) where
    -- What a route does with a transaction: a refusal leaves the context as it is.
    abbrev pub follow : Route → AnteHandler C B
    follow evm_chain ctx tx sim = new_evm_ante_handler l ctx o ctx tx sim
    follow cosmos_chain ctx tx sim = new_poa_cosmos_ante_handler l ctx o ctx tx sim
    follow (refuse e) ctx tx sim = (ctx, some e)

    follow-classify :
        (ctx : C) (tx : Option (Tx B)) (sim : Bool)
        → new_poa_evm_ante_handler l o ctx tx sim ≡ follow (classify tx) ctx tx sim
    unfolding new_poa_evm_ante_handler
    follow-classify ctx none sim = refl
    follow-classify ctx (some t) sim = ground arith

    -- Every transaction has exactly one route, and the handler follows it, for every state of the
    -- chain: a nil transaction is refused; one with no extension option passes the Cosmos chain;
    -- otherwise the first extension option alone decides, the Ethereum one for the EVM chain, the
    -- dynamic-fee one for the Cosmos chain, and any other is refused with its type URL. A refusal
    -- leaves the context unchanged.
    pub new_poa_evm_ante_handler-Routes :
        (ctx : C) (tx : Option (Tx B)) (sim : Bool)
        → (r : Route) × Routes tx r
          × ((r' : Route) → Routes tx r' → r' ≡ r)
          × (new_poa_evm_ante_handler l o ctx tx sim ≡ follow r ctx tx sim)
    new_poa_evm_ante_handler-Routes ctx tx sim =
        (classify tx, classify-Routes tx, Routes-classify tx, follow-classify ctx tx sim)

    -- The two ends of a transaction that does not pass the EVM chain.
    abbrev pub CosmosOrRefused : C → Option (Tx B) → Bool → Type 0
    CosmosOrRefused ctx tx sim =
        (new_poa_evm_ante_handler l o ctx tx sim ≡ new_poa_cosmos_ante_handler l ctx o ctx tx sim)
        ⊎ ((e : Error) × (new_poa_evm_ante_handler l o ctx tx sim ≡ (ctx, some e)))

    -- A transaction without the Ethereum option passes the Cosmos chain or is refused at once.
    pub cosmos_or_refused :
        (ctx : C) (tx : Option (Tx B)) (sim : Bool)
        → first_extension tx ≢ some l.ethereum_tx_url
        → CosmosOrRefused ctx tx sim
    cosmos_or_refused ctx tx sim not_eth =
        go (classify tx) (classify-Routes tx) (follow-classify ctx tx sim)
      where
        go :
            (r : Route)
            → Routes tx r
            → new_poa_evm_ante_handler l o ctx tx sim ≡ follow r ctx tx sim
            → CosmosOrRefused ctx tx sim
        go evm_chain (ethereum t e (rest, first)) h =
            absurd (not_eth (rw e (rw (first, first_extension))))
        go cosmos_chain r h = inl h
        go (refuse e) r h = inr (e, h)

    -- A transaction with the Ethereum option passes the EVM chain.
    pub passes_evm_chain :
        (ctx : C) (tx : Option (Tx B)) (sim : Bool)
        → first_extension tx ≡ some l.ethereum_tx_url
        → new_poa_evm_ante_handler l o ctx tx sim ≡ new_evm_ante_handler l ctx o ctx tx sim
    passes_evm_chain ctx tx sim eth =
        go (classify tx) (classify-Routes tx) (follow-classify ctx tx sim)
      where
        clash : {x : Option String} → first_extension tx ≡ x → x ≢ some l.ethereum_tx_url → ⊥
        clash e other = other (sym e ∙ eth)

        go :
            (r : Route)
            → Routes tx r
            → new_poa_evm_ante_handler l o ctx tx sim ≡ follow r ctx tx sim
            → new_poa_evm_ante_handler l o ctx tx sim ≡ new_evm_ante_handler l ctx o ctx tx sim
        go r (nil_tx e) h = absurd (clash {x = none} (rw (e, first_extension)) (λ p. cc))
        go r (plain t e (inl no_options)) h =
            absurd (clash {x = none} (rw e (rw (no_options, first_extension))) (λ p. cc))
        go r (plain t e (inr no_options)) h =
            absurd (clash {x = none} (rw e (rw (no_options, first_extension))) (λ p. cc))
        go r (ethereum t e first) h = h
        go r (dynamic_fee t e (rest, first) other) h =
            absurd (clash (rw e (rw (first, first_extension))) (λ p. other (some_inj p)))
        go r (unsupported t url e (rest, first) other _) h =
            absurd (clash (rw e (rw (first, first_extension))) (λ p. other (some_inj p)))
