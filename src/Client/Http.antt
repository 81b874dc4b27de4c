-- ===== src/Client/Http.antt =====
-- internal/convexclient/client.go: the steps that each request goes through.
use ai_cloud_operator.Base.{
  ℕ, String, List, [], ◌∷◌, Option, none, some, concat, GoError, leaf, errorf, ErrorKind, Result,
  ok, err,
}
use ai_cloud_operator.Base.Effects.{M, return, call, ◌>>=◌}
use ai_cloud_operator.Catalog.Types.{Params, Library}
use ai_cloud_operator.Operator.World.{ClaimedWorkload, ClaimedOperation}
use ai_cloud_operator.Client.Wire.{Body, RegisterResponse, HeartbeatResponse}

-- The enrollment secret is the one field that changes; it is an argument of `register`.
pub record Config : Type 0 where
  pub base_url : String
  pub operator_name : String
  pub external_url : String
  pub metadata : Params
  pub version : String
  pub tags : Option (List String)

-- All requests are POSTs of JSON. `bearer` is `none` without an Authorization header.
pub record Request : Type 0 where
  pub url : String
  pub bearer : Option String
  pub body : String

pub record Response : Type 0 where
  pub status : ℕ
  pub body : String

pub data Event : Type 0 where
  sent : Request → Event

-- `send` is the Do of the HTTP client, `url_fault` what NewRequest says of a URL, and the
-- `decode` functions read JSON.
pub record Env : Type 0 where
  pub lib : Library
  pub config : Config
  pub show_status : ℕ → String
  pub encode : Body → Result String
  pub url_fault : String → Option GoError
  pub send : List Event → Request → Result Response
  pub decode_register : String → Result RegisterResponse
  pub decode_heartbeat : String → Result HeartbeatResponse
  pub decode_claimed_workload : String → Result ClaimedWorkload
  pub decode_claimed_operation : String → Result ClaimedOperation
  pub decode_verified : String → Result String

module _ (env : Env) where
  abbrev pub wrapped : String → String → String → GoError → GoError
  wrapped before what after e = errorf (concat (before ∷ what ∷ after ∷ ": " ∷ [])) e ""

  abbrev pub request_to : String → Option String → String → Request
  request_to path bearer raw = record {
    url = concat (env.config.base_url ∷ path ∷ []);
    bearer = bearer;
    body = raw;
  }

  -- Marshaling, building and sending: every method begins with these.
  unfoldable pub post : String → String → Option String → Body → M Event (Result Response)
  post what path bearer body = elim (env.encode body) [
    | err e ↦ return (err (wrapped "marshaling " what " request" e))
    | ok raw ↦ elim (env.url_fault (concat (env.config.base_url ∷ path ∷ []))) [
      | some e ↦ return (err (wrapped "building " what " request" e))
      | none ↦ do
        answered ←
            call (sent (request_to path bearer raw)) (λ t. env.send t (request_to path bearer raw))
        elim answered [
          | err e ↦ return (err (wrapped "calling " what "" e))
          | ok response ↦ return (ok response)
        ]
    ]
  ]

  unfoldable pub bad_status : String → ℕ → GoError
  bad_status what status =
      leaf ErrorKind.plain (concat (what ∷ " returned status " ∷ env.show_status status ∷ []))
