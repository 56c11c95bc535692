-- ===== src/Names.antt =====
-- The names by which the wiring in app/app.go and app/ante.go refers to modules and their stores.
-- They are string constants of the packages that define the modules. Here each is a constructor
-- named for its package, so two names are equal only if the source writes the same constant: the
-- packages' constants are taken to be pairwise distinct, which Go's compiler checks for those that
-- are keys of one map literal.

-- The modules that app/app.go registers, by the constant `ModuleName` of their packages.
pub data ModuleName : Type 0 where
  genutil auth bank consensus gov upgrade poa : ModuleName
  ibc transfer gmp attestations : ModuleName
  evm feemarket erc20 tokenfactory ift : ModuleName

unfoldable pub ModuleName-discrete : Discrete ModuleName
ModuleName-discrete = hlevel

-- `StoreKey`, `ObjectStoreKey` (or `ObjectKey`) and `TransientStoreKey` of a package.
pub data StoreKey : Type 0 where
  kv object transient : ModuleName → StoreKey

unfoldable pub StoreKey-discrete : Discrete StoreKey
unfolding ModuleName-discrete
StoreKey-discrete = hlevel
