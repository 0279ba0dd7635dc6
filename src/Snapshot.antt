-- ===== src/Snapshot.antt =====
-- pkg/simulation/snapshot.go and the guards of Snapshot and Restore in runtime.go: a whole snapshot,
-- its validation, and the restore of a world. The codings of components and payloads, the resources,
-- and the hash of the JSON form are parameters.
pub mod Integrity
mod Tests
use simulator.Common.{
  ℕ, zero, suc, ◌+◌, ◌-◌, ◌*◌, ◌/◌, ◌%◌, ◌^◌, ◌≤◌, ◌<◌, min, ◌≡◌, refl, sym, ap, subst, ◌∙◌, ◌≢◌,
  ◌↔◌, ◌⊎◌, inl, inr, Bool, true, false, not, ◌&&◌, ◌||◌, Option, none, some, List, [], ◌∷◌, ◌++◌,
  map, Mem, Perm, arith, ℕ_discrete, ◌>>=◌, Returns, returns, ltb, leb, ◌==◌, if◌then◌else◌,
  Bool-cases, Option-cases, length, get_elem?, set, get_or, take, drop, replicate, store,
  length-append, length-set, length-take, length-drop, length-replicate, take-append-drop,
  drop-drop, get_elem?-get_or, get_elem?-lt, get_elem?-append, get_elem?-append_end,
  get_elem?-append_lt, get_or-set, get_or-append, get_or-take,
}
use Prim.Native.String.{String}
use simulator.Common.Maps.{Key, text_key}
use simulator.Common.Float.{Float64}
use simulator.Entity
use simulator.Entity.{EntityManagerState}
use simulator.Names.{snapshot_names, restore_names}
use simulator.Tags.{snapshot_tags, restore_tags}
use simulator.Store.{ComponentSnapshot, snapshot_components, restore_components}
use simulator.Event.{EventQueue}
use simulator.Event.Snapshot.{EventQueueState, snapshot_events, restore_events}
use simulator.Runtime.{State, Simulation, is_running}
use simulator.World.{Mode, mode_tick, mode_event, World, set_clock, bump_revision}

abbrev pub engine_version : String
engine_version = "0.1.0"

abbrev pub snapshot_schema_version : ℕ
snapshot_schema_version = 1

-- `D` stands for JSON and `R` for the resources as they are stored.
pub record Snapshot (T D R : Type 0) : Type 0 where
  pub schema_version : ℕ
  pub engine : String
  pub checksum : String
  pub simulation_id : String
  pub model_id : String
  pub model_version : String
  pub seed : ℕ
  pub mode : String
  pub tick : ℕ
  pub time : T
  pub entities : EntityManagerState
  pub components : List (ComponentSnapshot D)
  pub tag_names : List String
  pub tag_sets : List (ℕ × List ℕ)
  pub resources : List R
  pub model_config : Option D
  pub events : EventQueueState T D

pub data SnapshotError : Type 0 where
  unsupported_schema unsupported_engine not_encodable corrupted : SnapshotError
  other_model other_seed unknown_mode : SnapshotError
  components_refuse resources_refuse events_refuse : SnapshotError

-- What the code calls of JSON, SHA-256 and the resources. `restored` gives the resources after a
-- restore and whether it got through.
pub record Codec (T V P Q D R : Type 0) : Type 0 where
  pub encode : List V → Option D
  pub decode : D → Option (List V)
  pub marshal : P → Option D
  pub unmarshal : D → Option P
  pub stored : Q → Option (List R)
  pub restored : List R → Q → Bool × Q
  pub hash : Snapshot T D R → Option String

-- Mode.String and modeFromString.
unfoldable pub mode_name : Mode → String
mode_name mode_tick = "tick"
mode_name mode_event = "event"

unfoldable pub mode_from_string : String → Option Mode
mode_from_string s =
    if text_key.same s "tick"
    then some mode_tick
    else if text_key.same s "event"
    then some mode_event
    else none

module _ (f : Float64) {V P Q D R : Type 0} (c : Codec f.Time V P Q D R) where
  unfoldable pub compute_checksum : Snapshot f.Time D R → Option String
  compute_checksum s = c.hash (record s { checksum = "" })

  unfoldable pub checksum_error : String → Option String → Option SnapshotError
  checksum_error have none = some not_encodable
  checksum_error have (some want) = if text_key.same have want then none else some corrupted

  -- Validate
  unfoldable pub validate : Snapshot f.Time D R → Option SnapshotError
  validate s =
      if not (s.schema_version == snapshot_schema_version)
      then some unsupported_schema
      else if not (text_key.same s.engine engine_version)
      then some unsupported_engine
      else checksum_error s.checksum (compute_checksum s)

  -- World.Snapshot before the checksum; `none` is an error of a coding.
  unfoldable pub capture : World V Q f.Time P → Option (Snapshot f.Time D R)
  capture w = do
    components ← snapshot_components c.encode c.decode w.components
    resources ← c.stored w.resources
    events ← snapshot_events c.marshal w.events
    some (record {
      schema_version = snapshot_schema_version;
      engine = engine_version;
      checksum = "";
      simulation_id = w.meta.simulation_id;
      model_id = w.meta.model_id;
      model_version = w.meta.model_version;
      seed = w.meta.seed;
      mode = mode_name w.meta.mode;
      tick = w.clock.tick;
      time = w.clock.time;
      entities = Entity.snapshot w.entities;
      components = components;
      tag_names = snapshot_names w.tags;
      tag_sets = snapshot_tags w.tag_store;
      resources = resources;
      model_config = none;
      events = events;
    })

  unfoldable pub sealed : Snapshot f.Time D R → Option (Snapshot f.Time D R)
  sealed s = compute_checksum s >>= λ sum. some (record s { checksum = sum })

  unfoldable pub world_snapshot : World V Q f.Time P → Option (Snapshot f.Time D R)
  world_snapshot w = capture w >>= sealed

  -- The configuration that Simulation.Snapshot adds, which asks for a new checksum.
  unfoldable pub with_config : Option D → Snapshot f.Time D R → Option (Snapshot f.Time D R)
  with_config none s = some s
  with_config (some d) s = sealed (record s { model_config = some d })

  -- Simulation.Snapshot, with the JSON form of the model's configuration, if it has one.
  unfoldable pub take_snapshot :
      {E : Type 0} → Option D → Simulation (World V Q f.Time P) E → Option (Snapshot f.Time D R)
  take_snapshot config s =
      let taken = world_snapshot s.world >>= with_config config in
      if is_running s.state then none else taken

  -- What World.Restore compares with the world, once the snapshot is valid.
  unfoldable pub mismatch : World V Q f.Time P → Snapshot f.Time D R → Option SnapshotError
  mismatch w s =
      if not (
        text_key.same s.model_id w.meta.model_id
        && text_key.same s.model_version w.meta.model_version)
      then some other_model
      else if not (s.seed == w.meta.seed)
      then some other_seed
      else none

  -- World.Restore after the events.
  unfoldable pub finish_restore :
      Snapshot f.Time D R
      → Mode
      → World V Q f.Time P
      → Bool × EventQueue f.Time P
      → Option SnapshotError × World V Q f.Time P
  finish_restore s mode w (false, q) = (some events_refuse, record w { events = q })
  finish_restore s mode w (true, q) = (
    none,
    record w {
      events = q;
      meta = record w.meta { simulation_id = s.simulation_id; mode = mode };
      revision = bump_revision w.revision;
    },
  )

  -- World.Restore after the resources.
  unfoldable pub restore_rest :
      Snapshot f.Time D R
      → Mode
      → World V Q f.Time P
      → Bool × Q
      → Option (Option SnapshotError × World V Q f.Time P)
  restore_rest s mode w (false, q) = some (some resources_refuse, record w { resources = q })
  restore_rest s mode w (true, q) =
      let w' = record w { resources = q; clock = set_clock w.clock s.tick s.time } in
      restore_events f c.unmarshal s.events w'.events >>= λ r. some (finish_restore s mode w' r)

  -- World.Restore from the entities on; the outer `none` is a panic. An error leaves what was
  -- restored before it.
  unfoldable pub restore_parts :
      Snapshot f.Time D R
      → Mode
      → World V Q f.Time P
      → Option (Option SnapshotError × World V Q f.Time P)
  restore_parts s mode w = do
    entities ← Entity.restore w.entities s.entities
    (err, components) ← restore_components c.encode c.decode w.components s.components
    let w' = record w { entities = entities; components = components }
    let tagged = record w' { tags = restore_names s.tag_names; tag_store = restore_tags s.tag_sets }
    elim err [
      | some e ↦ some (some components_refuse, w')
      | none ↦ restore_rest s mode tagged (c.restored s.resources w.resources)
    ]

  -- The first of two checks that fails.
  abbrev pub or_else : Option SnapshotError → Option SnapshotError → Option SnapshotError
  or_else (some e) later = some e
  or_else none later = later

  abbrev pub known_mode :
      Option Mode
      → (Mode → Option (Option SnapshotError × World V Q f.Time P))
      → World V Q f.Time P
      → Option (Option SnapshotError × World V Q f.Time P)
  known_mode none next w = some (some unknown_mode, w)
  known_mode (some mode) next w = next mode

  unfoldable pub checked :
      Option SnapshotError
      → Snapshot f.Time D R
      → World V Q f.Time P
      → Option (Option SnapshotError × World V Q f.Time P)
  checked (some e) s w = some (some e, w)
  checked none s w = known_mode (mode_from_string s.mode) (λ mode. restore_parts s mode w) w

  -- World.Restore
  unfoldable pub world_restore :
      Snapshot f.Time D R → World V Q f.Time P → Option (Option SnapshotError × World V Q f.Time P)
  world_restore s w = checked (or_else (validate s) (mismatch w s)) s w
