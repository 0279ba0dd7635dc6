-- ===== src/Api/Tests.antt =====
-- A server with two simulations, one of the user ann and one of the user bob.
use simulator.Common.{ℕ, ◌+◌, ◌≡◌, refl, ap, ◌≢◌, inr, true, false, none, some, [], ◌∷◌}
use Prim.Native.String.{String}
use simulator.Common.Maps.{lookup, put, delete, text_key}
use simulator.World.{mode_tick}
use simulator.Registry.{ModelInfo, Registry, get_latest, get_version, entry_key}
use simulator.Auth.{
  Claims, Jwt, TokenManager, bearer, strip_prefix, trim_left, trim_right, is_space, parse_token,
  text_or_empty,
}
use simulator.Runtime.{State, Simulation, more, paused, idle, stop, begin}
use simulator.Runner.{
  SimulationInfo, Model, Managed, Persistence, Manager, get_info, status_of, instantiate,
  requested_entry, requested_mode, run_config, managed_from, mode_string, owner_ptr, after_init,
  after_mode, after_configure, after_upsert, after_factory, after_entry,
}
use simulator.Runner.Statuses.{resume_op, called, observed, IsRecorded, perform, perform-IsRecorded}
use simulator.Runner.Control.{
  replay_sim, replay_request, after_lookup, after_instantiate, after_restart,
}
use simulator.Api.{Server, Outside, api_error, stream_reading, replay_action, act, action}
use simulator.Api.Routes.{get_target, read_target, simulation_route, Request, serve}
use simulator.Api.Guards.{non_owner_refused}
use simulator.Api.Replays.{replay_locks_out}

-- The store counts its writes.
abbrev records : Persistence ℕ ℕ ℕ
records = record {
  upsert_model = λ info s. (none, s);
  create_simulation = λ info s. (inr info, s);
  update_status = λ id status s. (none, s + 1);
  delete_simulation = λ id s. (none, s);
}

abbrev counter_model : Model ℕ ℕ ℕ
counter_model = record { mode = mode_tick; configure = λ d. none; init = λ rc. inr 10 }

abbrev counter_info : ModelInfo
counter_info = record {
  id = "counter";
  name = "Counter";
  version = "1.0.0";
  description = "";
  mode = "tick";
}

abbrev models : Registry (Model ℕ ℕ ℕ)
models = record {
  entries = ("counter@1.0.0", record { info = counter_info; factory = some counter_model }) ∷ [];
  latest = ("counter", "1.0.0") ∷ [];
}

abbrev info_of : String → String → SimulationInfo ℕ
info_of id owner = record {
  id = id;
  model_id = "counter";
  model_version = "1.0.0";
  seed = 7;
  mode = mode_tick;
  status = "created";
  config = record {
    model_id = "counter";
    model_version = "1.0.0";
    seed = 7;
    mode = mode_tick;
    max_ticks = 0;
    workers = 1;
    model = none;
  };
  owner_id = some owner;
}

abbrev managed_of : State → SimulationInfo ℕ → Managed ℕ ℕ ℕ
managed_of state info = record {
  sim = record { state = state; err = none; steps = 3; world = 4; cancel = none; loops = [] };
  info = info;
}

abbrev manager : Manager ℕ ℕ ℕ ℕ
manager = record {
  sims =
      ("s1", managed_of paused (info_of "s1" "ann"))
      ∷ ("s2", managed_of idle (info_of "s2" "bob"))
      ∷ [];
  store = 0;
  registry = models;
  met = none;
}

abbrev ann : Claims
ann = record { user_id = "ann"; role = "USER" }

-- Every token but the empty one is ann's.
abbrev anns : Jwt
anns = record {
  sign = λ typ c issued expires secret. none;
  parse = λ key now token. some (record { claims = ann; typ = some "access"; valid = true });
}

abbrev outside : Outside ℕ ℕ ℕ ℕ
outside = record {
  jwt = anns;
  persistence = records;
  exec = λ w. (w + 1, more);
  null = 0;
  fresh = "s9";
  working = λ s. s;
  meanwhile = λ s. s;
  read = λ r m id. some (api_error 404 "not_found", m);
  recovered = λ m. (api_error 500 "", m);
}

abbrev tokens : TokenManager
tokens = record { secret = "k"; access_ttl = 15; refresh_ttl = 1440 }

abbrev server : Server ℕ ℕ ℕ ℕ
server = record { manager = manager; tokens = some tokens }

abbrev stream_request : String → String → Request ℕ
stream_request id header = record {
  route = simulation_route id (read_target stream_reading);
  authorization = header;
  now = 5;
  below_limit = none;
}

abbrev get_request : String → String → Request ℕ
get_request id header = record {
  route = simulation_route id get_target;
  authorization = header;
  now = 5;
  below_limit = none;
}

texts_apart : (a b : String) → text_key.same a b ≡ false → a ≢ b
texts_apart a b e same = cc (e, (text_key.same_iff a b).1 same)

-- Another user stops the simulation before the record of this call is written.
abbrev stopped_by_others : Simulation ℕ ℕ → Simulation ℕ ℕ
stopped_by_others s = (stop s).1

perform-IsRecorded_example :
    IsRecorded records stopped_by_others
      (called outside.exec outside.working resume_op)
      (observed stopped_by_others resume_op)
      manager
      "s1"
      (perform records stopped_by_others outside.exec outside.working resume_op manager "s1")
perform-IsRecorded_example =
    perform-IsRecorded records stopped_by_others manager "s1" outside.exec outside.working resume_op

non_owner_refused_example :
    serve outside server (stream_request "s2" "Bearer t") ≡ (api_error 404 "not_found", server)
unfolding get_info lookup status_of bearer strip_prefix trim_left trim_right is_space parse_token
non_owner_refused_example =
    non_owner_refused outside server tokens (stream_request "s2" "Bearer t") ann "s2"
      (read_target stream_reading) (info_of "s2" "bob") refl (texts_apart "t" "" refl) refl
      (texts_apart "USER" "ADMIN" refl) refl refl
      (λ e. texts_apart "bob" "ann" refl (ap text_or_empty e))

replay_locks_out_example :
    serve outside (action outside replay_action server "s1").1 (get_request "s1" "Bearer t")
    ≡ (api_error 404 "not_found", (action outside replay_action server "s1").1)
unfolding act replay_sim replay_request after_lookup after_instantiate after_restart instantiate
    requested_entry after_entry after_factory after_upsert after_configure after_mode after_init
    requested_mode run_config managed_from mode_string owner_ptr get_latest get_version entry_key
    lookup put delete begin stop bearer strip_prefix trim_left trim_right is_space parse_token
replay_locks_out_example =
    replay_locks_out outside server tokens "s1" (get_request "s1" "Bearer t") ann get_target refl
      refl (texts_apart "t" "" refl) refl (texts_apart "USER" "ADMIN" refl) refl
