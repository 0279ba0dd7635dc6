-- ===== src/Api.antt =====
-- internal/api/handlers.go and response.go: the handlers, over the manager of simulations. A request
-- body is given as it was decoded, or as the failure to decode it; the texts of the messages are
-- left out.
pub mod Routes
pub mod Guards
pub mod Replays
pub mod Inspect
pub mod Stream
pub mod Readings
pub mod Accounts
pub mod Sessions
mod SessionTests
mod Tests
use simulator.Common.{
  ℕ, zero, suc, ◌+◌, ◌-◌, ◌*◌, ◌/◌, ◌%◌, ◌^◌, ◌≤◌, ◌<◌, min, ◌≡◌, refl, sym, ap, subst, ◌∙◌, ◌≢◌,
  ◌↔◌, ◌⊎◌, inl, inr, Bool, true, false, not, ◌&&◌, ◌||◌, Option, none, some, List, [], ◌∷◌, ◌++◌,
  map, Mem, Perm, arith, ℕ_discrete, ◌>>=◌, Returns, returns, ltb, leb, ◌==◌, if◌then◌else◌,
  Bool-cases, Option-cases, length, get_elem?, set, get_or, take, drop, replicate, store,
  length-append, length-set, length-take, length-drop, length-replicate, take-append-drop,
  drop-drop, get_elem?-get_or, get_elem?-lt, get_elem?-append, get_elem?-append_end,
  get_elem?-append_lt, get_or-set, get_or-append, get_or-take,
}
use Prim.Native.String.{String}
use simulator.Common.Maps.{Key, lookup, text_key}
use simulator.Runtime.{Outcome, Simulation, LifecycleError}
use simulator.Registry.{ModelInfo, Entry, Registry, get_latest, list_models, sync_models}
use simulator.Auth.{Claims, Jwt, TokenManager, TokenPair, role_admin, same_text}
use simulator.Runner.{
  SimulationInfo, CreateRequest, Model, Managed, ManagerError, not_found, lifecycle, Persistence,
  Manager, create_sim, get_info, list_infos,
}
use simulator.Runner.Control.{
  pause_sim, resume_sim, stop_sim, start_sim, step_sim, delete_sim, replay_sim,
}

pub record Server (W S D E : Type 0) : Type 0 where
  pub manager : Manager W S D E
  -- without a manager of tokens there is no authentication
  pub tokens : Option TokenManager

-- The routes that look into the world of a simulation, stream its progress, or put a snapshot into it.
-- The body of the latter is JSON.
pub data Reading (D : Type 0) : Type 0 where
  state_reading events_reading metrics_reading stream_reading snapshot_reading : Reading D
  restore_reading : D → Reading D

pub data ResponseBody (D : Type 0) : Type 0 where
  nothing : ResponseBody D
  error_code status_text : String → ResponseBody D
  model_info : ModelInfo → ResponseBody D
  model_infos : List ModelInfo → ResponseBody D
  simulation_info : SimulationInfo D → ResponseBody D
  simulation_infos : List (SimulationInfo D) → ResponseBody D
  -- the JSON form of what a reading gives
  view : D → ResponseBody D
  -- server-sent events, each in its JSON form
  sent_events : List D → ResponseBody D
  -- the JSON form of a user: the identifier, the name and the role, without the hash of the password
  account : String → String → String → ResponseBody D
  session : TokenPair → ResponseBody D

pub record Response (D : Type 0) : Type 0 where
  pub status : ℕ
  pub body : ResponseBody D

-- What the server calls and is not its own: the tokens' library, the store, the executor, JSON's
-- null, the identifier that newID draws, what others do to a simulation while a Step of it works and
-- between a call of the runtime and the record of its status, the readings of a world (those of Api.Inspect), where `none`
-- is a panic, and what the recovery from a panic answers and leaves.
pub record Outside (W S D E : Type 0) : Type 0 where
  pub jwt : Jwt
  pub persistence : Persistence S D E
  pub exec : W → W × Outcome E
  pub null : D
  pub fresh : String
  pub working : Simulation W E → Simulation W E
  pub meanwhile : Simulation W E → Simulation W E
  pub read : Reading D → Manager W S D E → String → Option (Response D × Manager W S D E)
  pub recovered : Manager W S D E → Response D × Manager W S D E

unfoldable pub write_json : {D : Type 0} → ℕ → ResponseBody D → Response D
write_json status body = record { status = status; body = body }

-- An apiError, written.
abbrev pub api_error : {D : Type 0} → ℕ → String → Response D
api_error status code = write_json status (error_code code)

-- writeError, of an error of the manager.
unfoldable pub write_error : {D E : Type 0} → ManagerError E → Response D
write_error not_found = api_error 404 "not_found"
write_error (lifecycle _) = api_error 409 "conflict"
write_error _ = api_error 500 "internal"

abbrev pub bad_request : {D : Type 0} → String → Response D
bad_request code = api_error 400 code

-- owns, of the claims in the context, if there are any.
unfoldable pub owns : {D : Type 0} → Option Claims → SimulationInfo D → Bool
owns none info = true
owns (some c) info =
    same_text c.role role_admin
    || elim info.owner_id [ none ↦ false | some o ↦ same_text o c.user_id ]

-- The simulations that listSimulations keeps.
unfoldable pub owned :
    {D : Type 0} → Option Claims → List (SimulationInfo D) → List (SimulationInfo D)
owned c [] = []
owned c (info ∷ infos) = let rest = owned c infos in if owns c info then info ∷ rest else rest

-- The claims override the owner that the request names.
unfoldable pub owned_request : {D : Type 0} → Option Claims → CreateRequest D → CreateRequest D
owned_request none req = req
owned_request (some c) req = record req { owner_id = c.user_id }

-- The routes that `action` makes.
pub data Action : Type 0 where
  start_action pause_action resume_action stop_action step_action replay_action : Action

abbrev pub done_status : Action → ℕ × String
done_status start_action = (202, "started")
done_status pause_action = (200, "paused")
done_status resume_action = (200, "resumed")
done_status stop_action = (200, "stopped")
done_status step_action = (200, "stepped")
done_status replay_action = (200, "replayed")

module _ {W S D E : Type 0} where
  abbrev pub with_manager : Server W S D E → Manager W S D E → Server W S D E
  with_manager s m = record s { manager = m }

  unfoldable pub get_model : Server W S D E → String → Response D
  get_model s id = elim (get_latest s.manager.registry id) [
    | none ↦ api_error 404 "not_found"
    | some e ↦ write_json 200 (model_info e.info)
  ]

  unfoldable pub list_simulations : Option Claims → Server W S D E → Response D
  list_simulations c s = write_json 200 (simulation_infos (owned c (list_infos s.manager.sims)))

  unfoldable pub get_simulation : Server W S D E → String → Response D
  get_simulation s id = elim (get_info s.manager id) [
    | none ↦ api_error 404 "not_found"
    | some info ↦ write_json 200 (simulation_info info)
  ]

  -- The answer to a call that either fails or has the status of its success.
  unfoldable pub answer_with :
      Response D
      → Server W S D E
      → Option (ManagerError E) × Manager W S D E
      → Response D × Server W S D E
  answer_with done s (none, m) = (done, with_manager s m)
  answer_with done s (some e, m) = (write_error e, with_manager s m)

  -- createSimulation from the call of the manager on.
  unfoldable pub created :
      Server W S D E
      → (ManagerError E ⊎ SimulationInfo D) × Manager W S D E
      → Response D × Server W S D E
  created s (inl e, m) = (bad_request "create_failed", with_manager s m)
  created s (inr info, m) = (write_json 201 (simulation_info info), with_manager s m)

  module _ (o : Outside W S D E) where
    unfoldable pub sync_handler : Server W S D E → Response D × Server W S D E
    sync_handler s =
        let models = list_models s.manager.registry.entries in
        let (err, store) = sync_models o.persistence.upsert_model models s.manager.store in
        let s' = with_manager s (record s.manager { store = store }) in
        elim err [
          | some e ↦ (api_error 500 "internal", s')
          | none ↦ (write_json 200 (model_infos models), s')
        ]

    unfoldable pub create_simulation :
        Option Claims → Server W S D E → Option (CreateRequest D) → Response D × Server W S D E
    create_simulation c s none = (bad_request "invalid_request", s)
    create_simulation c s (some req) =
        created s (create_sim o.persistence o.fresh s.manager (owned_request c req))

    unfoldable pub delete_simulation : Server W S D E → String → Response D × Server W S D E
    delete_simulation s id =
        answer_with (write_json 204 nothing) s (delete_sim o.persistence s.manager id)

    -- The operation of the manager behind an action.
    unfoldable pub act :
        Action → Manager W S D E → String → Option (ManagerError E) × Manager W S D E
    act start_action m id = start_sim o.persistence o.meanwhile m id
    act pause_action m id = pause_sim o.persistence o.meanwhile m id
    act resume_action m id = resume_sim o.persistence o.meanwhile m id
    act stop_action m id = stop_sim o.persistence o.meanwhile m id
    act step_action m id = step_sim o.persistence o.meanwhile o.exec o.working m id
    act replay_action m id = replay_sim o.persistence o.meanwhile o.null m id

    unfoldable pub action : Action → Server W S D E → String → Response D × Server W S D E
    action a s id =
        let (code, text) = done_status a in
        answer_with (write_json code (status_text text)) s (act a s.manager id)

    -- The end of a reading.
    unfoldable pub answer_read :
        Server W S D E → Option (Response D × Manager W S D E) → Response D × Server W S D E
    answer_read s none = let (r, m) = o.recovered s.manager in (r, with_manager s m)
    answer_read s (some (r, m)) = (r, with_manager s m)

    unfoldable pub read_simulation :
        Reading D → Server W S D E → String → Response D × Server W S D E
    read_simulation r s id = answer_read s (o.read r s.manager id)
