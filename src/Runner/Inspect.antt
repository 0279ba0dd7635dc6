-- ===== src/Runner/Inspect.antt =====
-- internal/runner/manager.go: State, Metrics, Snapshot and Restore of a simulation in the process, and
-- Simulation.Restore of pkg/simulation/runtime.go, for simulations of a world.
use simulator.Common.{ℕ, ◌⊎◌, inl, inr, Option, none, some, ◌>>=◌, if◌then◌else◌, store}
use Prim.Native.String.{String}
use simulator.Common.Maps.{text_key}
use simulator.Common.Float.{Float64}
use simulator.Entity
use simulator.Event
use simulator.Runtime.{Simulation, LifecycleError, is_running}
use simulator.World.{World}
use simulator.Snapshot.{Snapshot, SnapshotError, Codec, take_snapshot, world_restore}
use simulator.Runner.{Managed, ManagerError, lifecycle, Manager, status_of, lookup_sim}
use simulator.Runner.Control.{with_sim}

pub record StateView (T : Type 0) : Type 0 where
  pub id : String
  pub status : String
  pub tick : ℕ
  pub time : T
  pub steps : ℕ

pub record MetricsView (T N : Type 0) : Type 0 where
  pub id : String
  pub status : String
  pub steps : ℕ
  pub tick : ℕ
  pub time : T
  pub entities : ℕ
  pub events : ℕ
  pub model : Option N

-- The record of a snapshot that is kept, without the identifier that newID draws for it.
pub record SnapshotInfo (J : Type 0) : Type 0 where
  pub simulation_id : String
  pub schema_version : ℕ
  pub engine_version : String
  pub content : J
  pub checksum : String

pub data InspectError (E : Type 0) : Type 0 where
  manager_error : ManagerError E → InspectError E
  coding_failed : InspectError E
  refused_snapshot : SnapshotError → InspectError E
  refused_config : E → InspectError E
  not_saved : E → InspectError E

module _ (f : Float64) {V P Q E : Type 0} where
  unfoldable pub state_view : String → Simulation (World V Q f.Time P) E → StateView f.Time
  state_view id s = record {
    id = id;
    status = status_of s.state;
    tick = s.world.clock.tick;
    time = s.world.clock.time;
    steps = s.steps;
  }

  -- Metrics; the measures are those of the model, if it has any.
  unfoldable pub metrics_view :
      {N : Type 0} → String → Option N → Simulation (World V Q f.Time P) E → MetricsView f.Time N
  metrics_view id measures s = record {
    id = id;
    status = status_of s.state;
    steps = s.steps;
    tick = s.world.clock.tick;
    time = s.world.clock.time;
    entities = Entity.len s.world.entities;
    events = Event.len f s.world.events;
    model = measures;
  }

module _ (f : Float64) {V P Q S D E : Type 0} where
  unfoldable pub sim_state :
      Manager (World V Q f.Time P) S D E → String → ManagerError E ⊎ StateView f.Time
  sim_state m id = elim (lookup_sim m id) [ inl e ↦ inl e | inr mg ↦ inr (state_view f id mg.sim) ]

  unfoldable pub sim_metrics :
      {N : Type 0}
      → Manager (World V Q f.Time P) S D E
      → String
      → Option N
      → ManagerError E ⊎ MetricsView f.Time N
  sim_metrics m id measures = elim (lookup_sim m id) [
    | inl e ↦ inl e
    | inr mg ↦ inr (metrics_view f id measures mg.sim)
  ]

module _ {W S T D E R : Type 0} where
  -- The part of the manager's Snapshot that keeps it: the store answers an error or nothing.
  unfoldable pub saved :
      Manager W S D E
      → Snapshot T D R
      → Option E × S
      → (InspectError E ⊎ Snapshot T D R) × Manager W S D E
  saved m snap (some e, store) = (inl (not_saved e), record m { store = store })
  saved m snap (none, store) = (inr snap, record m { store = store })

module _ {T D R J : Type 0} where
  unfoldable pub snapshot_info : String → Snapshot T D R → J → SnapshotInfo J
  snapshot_info id snap content = record {
    simulation_id = id;
    schema_version = snap.schema_version;
    engine_version = snap.engine;
    content = content;
    checksum = snap.checksum;
  }

module _ (f : Float64) {V P Q D E : Type 0} where
  -- Simulation.Restore after the world: RestoreConfig, of a model that has it, answers an error or
  -- nothing.
  unfoldable pub after_world :
      Option (D → Option E)
      → Option D
      → Simulation (World V Q f.Time P) E
      → Option SnapshotError × World V Q f.Time P
      → Option (InspectError E) × Simulation (World V Q f.Time P) E
  after_world restore_config config s (some e, w) =
      (some (refused_snapshot e), record s { world = w })
  after_world none config s (none, w) = (none, record s { world = w })
  after_world (some restore_config) none s (none, w) = (none, record s { world = w })
  after_world (some restore_config) (some d) s (none, w) = elim (restore_config d) [
    | none ↦ (none, record s { world = w })
    | some e ↦ (some (refused_config e), record s { world = w })
  ]

module _ (f : Float64) {V P Q D E R : Type 0} (c : Codec f.Time V P Q D R) where
  -- Simulation.Snapshot with its refusal.
  unfoldable pub snapshot_of :
      Option D → Simulation (World V Q f.Time P) E → InspectError E ⊎ Snapshot f.Time D R
  snapshot_of config s =
      let taken : InspectError E ⊎ Snapshot f.Time D R = elim (take_snapshot f c config s) [
        | none ↦ inl coding_failed
        | some snap ↦ inr snap
      ] in
      if is_running s.state
      then inl (manager_error (lifecycle LifecycleError.already_running))
      else taken

  -- Simulation.Restore; the outer `none` is a panic.
  unfoldable pub restore_simulation :
      Option (D → Option E)
      → Snapshot f.Time D R
      → Simulation (World V Q f.Time P) E
      → Option (Option (InspectError E) × Simulation (World V Q f.Time P) E)
  restore_simulation restore_config snap s =
      let restored = world_restore f c snap s.world >>= λ r.
      some (after_world f restore_config snap.model_config s r) in
      if is_running s.state
      then some (some (manager_error (lifecycle LifecycleError.already_running)), s)
      else restored

module _ {W S T D E R J : Type 0} (save : SnapshotInfo J → S → Option E × S)
    (to_json : Snapshot T D R → Option J) where
  -- The parts of the manager's Snapshot after the simulation is looked up, after its snapshot, and after
  -- the JSON form of that.
  unfoldable pub keep_encoded :
      Manager W S D E
      → String
      → Snapshot T D R
      → Option J
      → (InspectError E ⊎ Snapshot T D R) × Manager W S D E
  keep_encoded m id snap none = (inl coding_failed, m)
  keep_encoded m id snap (some content) =
      saved m snap (save (snapshot_info id snap content) m.store)

  unfoldable pub keep_snapshot :
      Manager W S D E
      → String
      → InspectError E ⊎ Snapshot T D R
      → (InspectError E ⊎ Snapshot T D R) × Manager W S D E
  keep_snapshot m id (inl e) = (inl e, m)
  keep_snapshot m id (inr snap) = keep_encoded m id snap (to_json snap)

module _ (f : Float64) {V P Q S D E R J : Type 0} (c : Codec f.Time V P Q D R) where
  unfoldable pub snapshot_found :
      (SnapshotInfo J → S → Option E × S)
      → (Snapshot f.Time D R → Option J)
      → Option D
      → Manager (World V Q f.Time P) S D E
      → String
      → ManagerError E ⊎ Managed (World V Q f.Time P) D E
      → (InspectError E ⊎ Snapshot f.Time D R) × Manager (World V Q f.Time P) S D E
  snapshot_found save to_json config m id (inl e) = (inl (manager_error e), m)
  snapshot_found save to_json config m id (inr mg) =
      keep_snapshot save to_json m id (snapshot_of f c config mg.sim)

  unfoldable pub snapshot_sim :
      (SnapshotInfo J → S → Option E × S)
      → (Snapshot f.Time D R → Option J)
      → Option D
      → Manager (World V Q f.Time P) S D E
      → String
      → (InspectError E ⊎ Snapshot f.Time D R) × Manager (World V Q f.Time P) S D E
  snapshot_sim save to_json config m id = snapshot_found save to_json config m id (lookup_sim m id)

module _ (f : Float64) {V P Q S D E R : Type 0} (c : Codec f.Time V P Q D R) where
  unfoldable pub restore_found :
      Option (D → Option E)
      → Snapshot f.Time D R
      → Manager (World V Q f.Time P) S D E
      → String
      → ManagerError E ⊎ Managed (World V Q f.Time P) D E
      → Option (Option (InspectError E) × Manager (World V Q f.Time P) S D E)
  restore_found restore_config snap m id (inl e) = some (some (manager_error e), m)
  restore_found restore_config snap m id (inr mg) =
      restore_simulation f c restore_config snap mg.sim >>= λ (e, s). some (e, with_sim m id mg s)

  -- The manager's Restore.
  unfoldable pub restore_sim :
      Option (D → Option E)
      → Snapshot f.Time D R
      → Manager (World V Q f.Time P) S D E
      → String
      → Option (Option (InspectError E) × Manager (World V Q f.Time P) S D E)
  restore_sim restore_config snap m id = restore_found restore_config snap m id (lookup_sim m id)
