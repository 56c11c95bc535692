-- ===== src/Api/Laws.antt =====
-- When the registration of the routes panics, and what the services answer.
use mathlib.Core.List.{foldl}
use sandbox_ledger.Base.{
  ◌≡◌, refl, ◌↔◌, List, [], ◌∷◌, ◌++◌, Error, Result, ok, err, Outcome, returned, panicked, ◌>>=◌,
  or_panic, returned_inj,
}
use sandbox_ledger.Base.Lists.{All, All-append}
use sandbox_ledger.Api.{
  ApiLib, ApiConfig, ApiServer, GatewayRoutes, tx_routes, comet_routes, node_routes, module_routes,
  Service, tx_service, comet_service, node_service, register_api_routes, register_tx_service,
  register_tendermint_service, register_node_service,
}

module _ (l : ApiLib) where
  open l use {Ctx, World}

  abbrev pub all_routes : Ctx → List (GatewayRoutes × Ctx)
  all_routes ctx =
      (tx_routes, ctx) ∷ (comet_routes, ctx) ∷ (node_routes, ctx) ∷ (module_routes, ctx) ∷ []

  abbrev pub with_router : ApiServer l → l.Router → ApiServer l
  with_router server router = record server {
    gateway = server.gateway ++ all_routes server.client_ctx;
    router = router;
  }

  -- The end of the function, given what the registration of Swagger answers.
  routed : (server : ApiServer l) → Result l.Router → Outcome (ApiServer l)
  routed server r = or_panic r >>= λ router. returned (with_router server router)

  routed_panics :
      (server : ApiServer l) (r : Result l.Router) (x : Error)
      → (routed server r ≡ panicked x) ↔ (r ≡ err x)
  unfolding routed
  routed_panics server (ok router) x = (λ h. cc, λ h. cc)
  routed_panics server (err y) x = (λ h. cc, λ h. cc)

  routed_returns :
      (server : ApiServer l) (r : Result l.Router) (server' : ApiServer l)
      → (routed server r ≡ returned server')
        ↔ ((router : l.Router) × (r ≡ ok router) × (server' ≡ with_router server router))
  unfolding routed
  routed_returns server (ok router) server' =
      (λ h. (router, refl, returned_inj h), λ (router', p, q). cc)
  routed_returns server (err y) server' = (λ h. cc, λ (router', p, q). cc)

  -- `RegisterAPIRoutes` panics exactly with the error of the registration of Swagger. Otherwise it
  -- returns the server with the routes of the transactions, of CometBFT, of the node and of the
  -- modules behind those that its gateway had, each for the server's client context, and with the
  -- router that Swagger's registration left.
  pub register_api_routes_cases :
      (config : ApiConfig) (server server' : ApiServer l) (x : Error)
      → ((register_api_routes l config server ≡ panicked x)
          ↔ (l.register_swagger_api server.client_ctx server.router config.swagger ≡ err x))
        × ((register_api_routes l config server ≡ returned server') ↔ (
            (router : l.Router) × (l.register_swagger_api server.client_ctx server.router
                config.swagger
              ≡ ok router)
            × (server' ≡ with_router server router)))
  unfolding register_api_routes routed
  register_api_routes_cases config server server' x =
      let answer = l.register_swagger_api server.client_ctx server.router config.swagger in
      (routed_panics server answer x, routed_returns server answer server')

  -- A call of one of the three functions that register a service.
  pub data Registration : Type 0 where
    tx tendermint : Ctx → Registration
    node : Ctx → l.Config → Registration

  abbrev pub register : List (Service l) → Registration → List (Service l)
  register services (tx ctx) = register_tx_service l ctx services
  register services (tendermint ctx) = register_tendermint_service l ctx services
  register services (node ctx cfg) = register_node_service l ctx cfg services

  -- In any state, a service answers what the application answers in that state.
  abbrev pub IsCurrent : Service l → Type 0
  IsCurrent (tx_service ctx f) = (tx : l.Tx) (now : World) → f tx now ≡ l.simulate tx now
  IsCurrent (comet_service ctx f) =
      (query : l.Query) (now : World) → f query now ≡ l.query query now
  IsCurrent (node_service ctx cfg f) = (now : World) → f now ≡ l.earliest_version now

  register-IsCurrent :
      (services : List (Service l)) (r : Registration)
      → All IsCurrent services
      → All IsCurrent (register services r)
  unfolding register_tx_service register_tendermint_service register_node_service
  register-IsCurrent services (tx ctx) h = All-append IsCurrent services _ h ((λ tx now. refl), tt)
  register-IsCurrent services (tendermint ctx) h =
      All-append IsCurrent services _ h ((λ query now. refl), tt)
  register-IsCurrent services (node ctx cfg) h =
      All-append IsCurrent services _ h ((λ now. refl), tt)

  -- Whatever services are registered, how often and in which order,
  -- every service answers in each state what the application answers in that state: the node's
  -- earliest version is not that of the time of the registration.
  foldl-register-IsCurrent :
      (services : List (Service l)) (rs : List Registration)
      → All IsCurrent services
      → All IsCurrent (foldl register services rs)
  foldl-register-IsCurrent services [] h = h
  foldl-register-IsCurrent services (r ∷ rs) h =
      foldl-register-IsCurrent (register services r) rs (register-IsCurrent services r h)
