-- ===== src/Api/Inspect.antt =====
-- internal/api/handlers.go: the handlers of the state, the events, the metrics, the progress and the snapshots of a
-- simulation, for simulations of a world. The JSON forms are parameters.
use simulator.Common.{◌⊎◌, inl, inr, Bool, List, map, Option, none, some, ◌>>=◌}
use Prim.Native.String.{String}
use simulator.Common.Float.{Float64}
use simulator.Event.{Event, peek_all}
use simulator.World.{World}
use simulator.Snapshot.{Snapshot, Codec}
use simulator.Runtime.{Simulation}
use simulator.Api.Stream.{Progress, simulation_stream}
use simulator.Runner.{ManagerError, Manager, lookup_sim}
use simulator.Runner.Inspect.{
  StateView, MetricsView, SnapshotInfo, InspectError, manager_error, sim_state, sim_metrics,
  snapshot_sim, restore_sim,
}
use simulator.Api.{
  Response, write_json, write_error, api_error, bad_request, status_text, view, sent_events,
  Reading, state_reading, events_reading, metrics_reading, stream_reading, snapshot_reading,
  restore_reading,
}

-- JSON, by what is encoded.
pub record Json (T P N D R : Type 0) : Type 0 where
  pub of_state : StateView T → D
  pub of_metrics : MetricsView T N → D
  pub of_events : List (Event T P) → D
  pub of_progress : Progress → D
  pub of_snapshot : Snapshot T D R → D
  pub to_snapshot : D → Option (Snapshot T D R)

-- What the model of a simulation gives: its measures, its configuration, and the way to set that.
pub record ModelParts (N D E : Type 0) : Type 0 where
  pub measures : Option N
  pub config : Option D
  pub restore_config : Option (D → Option E)

-- writeError, of an error of a reading.
unfoldable pub write_inspect_error : {D E : Type 0} → InspectError E → Response D
write_inspect_error (manager_error e) = write_error e
write_inspect_error _ = api_error 500 "internal"

module _ {A D E : Type 0} where
  -- A handler that writes the JSON form of what it gets, or the error.
  unfoldable pub write_result : (A → D) → InspectError E ⊎ A → Response D
  write_result of (inl e) = write_inspect_error e
  write_result of (inr a) = write_json 200 (view (of a))

  unfoldable pub write_found : (A → D) → ManagerError E ⊎ A → Response D
  write_found of (inl e) = write_error e
  write_found of (inr a) = write_json 200 (view (of a))

-- What simulationStream answers or writes.
unfoldable pub stream_answer :
    {D : Type 0} → (Progress → D) → Response D ⊎ List Progress → Response D
stream_answer of (inl r) = r
stream_answer of (inr events) = write_json 200 (sent_events (map of events))

-- restoreSimulation after the call of the manager.
unfoldable pub restore_answer : {D E : Type 0} → Option (InspectError E) → Response D
restore_answer none = write_json 200 (status_text "restored")
restore_answer (some e) = bad_request "restore_failed"

module _ (f : Float64) {V P Q S D E R N : Type 0} (j : Json f.Time P N D R) where
  unfoldable pub simulation_state : Manager (World V Q f.Time P) S D E → String → Response D
  simulation_state m id = write_found j.of_state (sim_state f m id)

  unfoldable pub simulation_events : Manager (World V Q f.Time P) S D E → String → Response D
  simulation_events m id = elim (lookup_sim m id) [
    | inl e ↦ api_error 404 "not_found"
    | inr mg ↦ write_json 200 (view (j.of_events (peek_all f mg.sim.world.events)))
  ]

  unfoldable pub simulation_metrics :
      Option N → Manager (World V Q f.Time P) S D E → String → Response D
  simulation_metrics measures m id = write_found j.of_metrics (sim_metrics f m id measures)

  module _ (c : Codec f.Time V P Q D R) (save : SnapshotInfo D → S → Option E × S)
      (to_json : Snapshot f.Time D R → Option D) where
    unfoldable pub snapshot_simulation :
        Option D
        → Manager (World V Q f.Time P) S D E
        → String
        → Response D × Manager (World V Q f.Time P) S D E
    snapshot_simulation config m id =
        let (r, m') = snapshot_sim f c save to_json config m id in
        (write_result j.of_snapshot r, m')

  module _ (c : Codec f.Time V P Q D R) where
    -- `none` is a panic of the restore.
    unfoldable pub restore_decoded :
        Option (D → Option E)
        → Manager (World V Q f.Time P) S D E
        → String
        → Option (Snapshot f.Time D R)
        → Option (Response D × Manager (World V Q f.Time P) S D E)
    restore_decoded restore_config m id none = some (bad_request "invalid_request", m)
    restore_decoded restore_config m id (some snap) =
        restore_sim f c restore_config snap m id >>= λ (err, m'). some (restore_answer err, m')

  module _ (c : Codec f.Time V P Q D R) (save : SnapshotInfo D → S → Option E × S)
      (to_json : Snapshot f.Time D R → Option D) (parts : String → ModelParts N D E)
      (flusher : Bool) (seen : String → List (Simulation (World V Q f.Time P) E)) where
    -- The `read` of the server's outside. The response can flush or cannot, and `seen` is what the
    -- ticks of a stream observe.
    unfoldable pub read_world :
        Reading D
        → Manager (World V Q f.Time P) S D E
        → String
        → Option (Response D × Manager (World V Q f.Time P) S D E)
    read_world state_reading m id = some (simulation_state m id, m)
    read_world events_reading m id = some (simulation_events m id, m)
    read_world metrics_reading m id = some (simulation_metrics (parts id).measures m id, m)
    read_world stream_reading m id = some (
      stream_answer j.of_progress (simulation_stream (λ w. w.clock.tick) flusher m id (seen id)),
      m,
    )
    read_world snapshot_reading m id =
        some (snapshot_simulation c save to_json (parts id).config m id)
    read_world (restore_reading body) m id =
        restore_decoded c (parts id).restore_config m id (j.to_snapshot body)
