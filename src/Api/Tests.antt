-- ===== src/Api/Tests.antt =====
-- An API server whose states are numbers, the earliest version that the store still holds.
use sandbox_ledger.Base.{
  ℕ, String, ◌≡◌, ◌↔◌, false, [], ◌∷◌, Error, foreign, Result, ok, err, returned, panicked,
  if◌then◌else◌,
}
use sandbox_ledger.Base.Int.{pos}
use sandbox_ledger.Api.{ApiLib, ApiServer, node_routes, register_api_routes}
use sandbox_ledger.Api.Laws.{with_router, register_api_routes_cases}

abbrev no_files : Error
no_files = foreign "no swagger files"

-- There are no files for Swagger, so it can only be left out.
abbrev lib : ApiLib
lib = record {
  Ctx = String;
  Router = ℕ;
  Config = Unit;
  World = ℕ;
  Tx = ℕ;
  Simulated = ℕ;
  Query = ℕ;
  Answer = ℕ;
  register_swagger_api = λ ctx router enabled. if enabled then err no_files else ok router;
  simulate = λ tx world. tx;
  query = λ query world. world;
  earliest_version = λ world. pos world;
}

abbrev server : ApiServer lib
server = record { client_ctx = "client"; gateway = (node_routes, "other") ∷ []; router = 3 }

register_api_routes_cases_example :
    ((register_api_routes lib (record { swagger = false }) server ≡ panicked no_files)
      ↔ ◌≡◌ {A = Result ℕ} (ok 3) (err no_files))
    × ((register_api_routes lib (record { swagger = false }) server
          ≡ returned (with_router lib server 3))
        ↔ ((router : ℕ) × ◌≡◌ {A = Result ℕ} (ok 3) (ok router)
            × (with_router lib server 3 ≡ with_router lib server router)))
register_api_routes_cases_example =
    register_api_routes_cases lib (record { swagger = false }) server (with_router lib server 3)
      no_files
