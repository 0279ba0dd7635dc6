-- ===== src/Api/Routes.antt =====
-- internal/api/server.go and the middleware of internal/ratelimit: which checks stand before which
-- handler. Redis answers a rate limit with a Boolean, or not at all.
use simulator.Common.{ℕ, Bool, true, false, Option, none, some, if◌then◌else◌}
use Prim.Native.String.{String}
use simulator.Registry.{list_models}
use simulator.Auth.{
  Claims, role_admin, Passed, unauthorized, forbidden, passed, require_auth, require_role,
}
use simulator.Runner.{CreateRequest, get_info}
use simulator.Api.{
  Server, Outside, Response, model_infos, write_json, api_error, owns, Action, start_action,
  replay_action, get_model, list_simulations, get_simulation, sync_handler, create_simulation,
  delete_simulation, action, Reading, events_reading, metrics_reading, stream_reading,
  read_simulation,
}

-- The routes under /simulations/{id}: of itself, the six of `action`, and the six that read it or
-- restore it, the stream among them.
pub data Target (D : Type 0) : Type 0 where
  get_target delete_target : Target D
  action_target : Action → Target D
  read_target : Reading D → Target D

pub data Route (D : Type 0) : Type 0 where
  list_models_route sync_models_route list_simulations_route : Route D
  get_model_route : String → Route D
  create_route : Option (CreateRequest D) → Route D
  simulation_route : String → Target D → Route D

pub record Request (D : Type 0) : Type 0 where
  pub route : Route D
  pub authorization : String
  pub now : ℕ
  -- whether Redis is below the limit for this client; none without Redis, or on its error
  pub below_limit : Option Bool

-- Start and replay are limited, as is the creation.
abbrev pub is_limited : Action → Bool
is_limited start_action = true
is_limited replay_action = true
is_limited _ = false

-- So are the readings of the state and of snapshots.
abbrev pub is_limited_reading : {D : Type 0} → Reading D → Bool
is_limited_reading events_reading = false
is_limited_reading metrics_reading = false
is_limited_reading stream_reading = false
is_limited_reading _ = true

module _ {W S D E : Type 0} where
  unfoldable pub rate_limit :
      Option Bool → Server W S D E → Response D × Server W S D E → Response D × Server W S D E
  rate_limit (some false) s next = (api_error 429 "rate_limited", s)
  rate_limit _ s next = next

  -- ownership: a simulation of another user is not found; an unknown one is left to the handler.
  unfoldable pub ownership :
      Option Claims
      → Server W S D E
      → String
      → Response D × Server W S D E
      → Response D × Server W S D E
  ownership c s id next = elim (get_info s.manager id) [
    | none ↦ next
    | some info ↦ if owns c info then next else (api_error 404 "not_found", s)
  ]

  -- What a middleware of the tokens let through, or its own answer.
  unfoldable pub through :
      Server W S D E → Passed (Response D × Server W S D E) → Response D × Server W S D E
  through s (unauthorized _) = (api_error 401 "unauthorized", s)
  through s forbidden = (api_error 403 "forbidden", s)
  through s (passed r) = r

  module _ (o : Outside W S D E) where
    unfoldable pub handle_target :
        Option Bool → Server W S D E → String → Target D → Response D × Server W S D E
    handle_target below s id get_target = (get_simulation s id, s)
    handle_target below s id delete_target = delete_simulation o s id
    handle_target below s id (action_target a) =
        if is_limited a then rate_limit below s (action o a s id) else action o a s id
    handle_target below s id (read_target r) =
        if is_limited_reading r
        then rate_limit below s (read_simulation o r s id)
        else read_simulation o r s id

    unfoldable pub routes :
        Option Claims → Option Bool → Server W S D E → Route D → Response D × Server W S D E
    routes c below s list_models_route =
        (write_json 200 (model_infos (list_models s.manager.registry.entries)), s)
    routes c below s sync_models_route = elim s.tokens [
      | none ↦ sync_handler o s
      | some _ ↦ through s (require_role role_admin c (sync_handler o s))
    ]
    routes c below s list_simulations_route = (list_simulations c s, s)
    routes c below s (get_model_route id) = (get_model s id, s)
    routes c below s (create_route req) = rate_limit below s (create_simulation o c s req)
    routes c below s (simulation_route id t) = ownership c s id (handle_target below s id t)

    -- Router, for the routes behind the tokens.
    unfoldable pub serve : Server W S D E → Request D → Response D × Server W S D E
    serve s q = elim s.tokens [
      | none ↦ routes none q.below_limit s q.route
      | some t ↦ through s (
          require_auth o.jwt t (λ c. routes (some c) q.below_limit s q.route) q.authorization q.now)
    ]
