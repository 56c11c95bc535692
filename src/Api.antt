-- ===== src/Api.antt =====
-- app/app.go, `RegisterAPIRoutes`, `RegisterTxService`, `RegisterTendermintService` and
-- `RegisterNodeService`: what the server that runs the application offers to clients.
pub mod Laws
mod Tests
use sandbox_ledger.Base.{Bool, List, [], ◌∷◌, ◌++◌, Result, Outcome, returned, ◌>>=◌, or_panic}
use sandbox_ledger.Base.Int.{ℤ}

-- The functions of other packages that register routes on the gateway of gRPC: `RegisterGRPCGatewayRoutes`
-- of packages tx, cmtservice and node, and of the application's `BasicModuleManager`.
pub data GatewayRoutes : Type 0 where
  tx_routes comet_routes node_routes module_routes : GatewayRoutes

-- The calls of other packages and of the base application. `World` is the application's state, with
-- its multi-store. `Ctx` is `client.Context`.
pub record ApiLib : Type 1 where
  pub Ctx : Type 0
  pub Router : Type 0
  pub Config : Type 0
  pub World : Type 0
  pub Tx : Type 0
  pub Simulated : Type 0
  pub Query : Type 0
  pub Answer : Type 0
  -- `sdkserver.RegisterSwaggerAPI`
  pub register_swagger_api : Ctx → Router → Bool → Result Router
  -- `app.Simulate`, `app.Query` and `app.CommitMultiStore().EarliestVersion()`
  pub simulate : Tx → World → Simulated
  pub query : Query → World → Answer
  pub earliest_version : World → ℤ

-- `config.APIConfig`, as far as it is read.
pub record ApiConfig : Type 0 where
  pub swagger : Bool

module _ (l : ApiLib) where
  open l use {Ctx, World}

  -- `api.Server`, with the routes of its gateway in the order of their registration.
  pub record ApiServer : Type 0 where
    pub client_ctx : Ctx
    pub gateway : List (GatewayRoutes × Ctx)
    pub router : l.Router

  -- A service on the query router of gRPC, with the function by which it answers. The function is
  -- called on the state at the time of the query.
  pub data Service : Type 0 where
    tx_service : Ctx → (l.Tx → World → l.Simulated) → Service
    comet_service : Ctx → (l.Query → World → l.Answer) → Service
    node_service : Ctx → l.Config → (World → ℤ) → Service

  -- `RegisterAPIRoutes`
  unfoldable pub register_api_routes : ApiConfig → ApiServer → Outcome ApiServer
  register_api_routes config server = do
    let ctx = server.client_ctx
    let server : ApiServer = record server {
      gateway =
          server.gateway
          ++ (tx_routes, ctx)
            ∷ (comet_routes, ctx)
            ∷ (node_routes, ctx)
            ∷ (module_routes, ctx)
            ∷ [];
    }
    router ← or_panic (l.register_swagger_api server.client_ctx server.router config.swagger)
    returned (record server { router = router })

  -- `RegisterTxService`
  unfoldable pub register_tx_service : Ctx → List Service → List Service
  register_tx_service ctx services = services ++ tx_service ctx l.simulate ∷ []

  -- `RegisterTendermintService`
  unfoldable pub register_tendermint_service : Ctx → List Service → List Service
  register_tendermint_service ctx services = services ++ comet_service ctx l.query ∷ []

  -- `RegisterNodeService`
  unfoldable pub register_node_service : Ctx → l.Config → List Service → List Service
  register_node_service ctx cfg services =
      services ++ node_service ctx cfg (λ world. l.earliest_version world) ∷ []
