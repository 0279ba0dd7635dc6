-- ===== src/Api/Replays.antt =====
-- What a replay does to the access of the user who asked for it.
use simulator.Common.{◌≡◌, refl, ◌≢◌, Option, none, some, arith}
use Prim.Native.String.{String}
use simulator.Auth.{Claims, TokenManager, role_admin, bearer, parse_token}
use simulator.Runner.{SimulationInfo, ManagerError, Manager, get_info}
use simulator.Runner.Control.{replay_sim}
use simulator.Runner.Replay.{replay_sim-Unowned}
use simulator.Api.{
  Server, Outside, write_json, status_text, with_manager, api_error, replay_action, act, action,
  answer_with,
}
use simulator.Api.Routes.{Target, simulation_route, Request, serve}
use simulator.Api.Guards.{non_owner_refused}

module _ {W S D E : Type 0} (o : Outside W S D E) (s : Server W S D E) (t : TokenManager) where
  -- After a replay that answered with no error, with authentication on, every request of a user who
  -- is no administrator to that simulation is answered that it is not found, and changes nothing:
  -- also for the user who owned it.
  pub replay_locks_out :
      (id : String) (q : Request D) (c : Claims) (goal : Target D)
      → s.tokens ≡ some t
      → (act o replay_action s.manager id).0 ≡ none
      → bearer q.authorization ≢ ""
      → parse_token o.jwt t (bearer q.authorization) "access" q.now ≡ some c
      → c.role ≢ role_admin
      → q.route ≡ simulation_route id goal
      → serve o (action o replay_action s id).1 q
        ≡ (api_error 404 "not_found", (action o replay_action s id).1)
  unfolding action act answer_with
  replay_locks_out id q c goal on done given valid user route =
      after (replay_sim o.persistence o.meanwhile o.null s.manager id)
        (replay_sim-Unowned o.persistence o.meanwhile o.null s.manager id) done
    where
      after :
          (r : Option (ManagerError E) × Manager W S D E)
          → (r.0 ≡ none
              → (info : SimulationInfo D) × (get_info r.1 id ≡ some info) × (info.owner_id ≡ none))
          → r.0 ≡ none
          → serve o (answer_with (write_json 200 (status_text "replayed")) s r).1 q ≡ (
            api_error 404 "not_found",
            (answer_with (write_json 200 (status_text "replayed")) s r).1,
          )
      after (some e, m) known ok = absurd (ground arith)
      after (none, m) known ok =
          let (info, found, unowned) = known refl in
          non_owner_refused o (with_manager s m) t q c id goal info on given valid user route found
            (λ same. absurd (ground arith))
