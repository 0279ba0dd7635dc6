-- ===== src/Snapshot/Tests.antt =====
-- A snapshot of a new simulation, and a forged one, under a hash that is the simulation's identifier.
use simulator.Common.{ℕ, ◌≡◌, refl, ap, true, Option, none, some, [], ◌∷◌, arith, get_or, ◌>>=◌}
use Prim.Native.String.{String}
use simulator.Common.Maps.{text_key}
use simulator.Entity
use simulator.Entity.{EntityManagerState, new_entity_manager}
use simulator.Names.{new_tag_registry, snapshot_names}
use simulator.Tags.{new_tag_store, snapshot_tags}
use simulator.Store.{snapshot_components, snapshot_from, restore_components, new_component_store}
use simulator.Event.{new_event_queue}
use simulator.Event.Snapshot.{snapshot_events, code_events, push_coded, restore_events}
use simulator.Event.Tests.{whole}
use simulator.Runtime.{Simulation, idle}
use simulator.World.{mode_tick, Metadata, World, bump_revision, new_clock, new_world}
use simulator.Snapshot.{
  SnapshotError, world_restore, checked, validate, checksum_error, mismatch, mode_from_string,
  restore_parts, restore_rest, finish_restore, Snapshot, Codec, compute_checksum, capture, sealed,
  world_snapshot, with_config, take_snapshot, mode_name,
}
use simulator.Snapshot.Integrity.{IsProtected, tampered_refused}

abbrev codec : Codec ℕ ℕ ℕ ℕ ℕ ℕ
codec = record {
  encode = λ vs. some 0;
  decode = λ d. some [];
  marshal = λ p. some p;
  unmarshal = λ d. some d;
  stored = λ q. some (q ∷ []);
  restored = λ rs q. (true, get_or rs 0 q);
  hash = λ s. some s.simulation_id;
}

abbrev meta : Metadata
meta = record {
  simulation_id = "s1";
  model_id = "counter";
  model_version = "1.0.0";
  seed = 7;
  mode = mode_tick;
}

abbrev world : World ℕ ℕ ℕ ℕ
world = new_world 0 5 meta "s1" 7

abbrev new_sim : Simulation (World ℕ ℕ ℕ ℕ) ℕ
new_sim = record { state = idle; err = none; steps = 0; world = world; cancel = none; loops = [] }

abbrev taken : Snapshot ℕ ℕ ℕ
taken = record {
  schema_version = 1;
  engine = "0.1.0";
  checksum = "s1";
  simulation_id = "s1";
  model_id = "counter";
  model_version = "1.0.0";
  seed = 7;
  mode = "tick";
  tick = 0;
  time = 0;
  entities = Entity.snapshot world.entities;
  components = [];
  tag_names = [];
  tag_sets = [];
  resources = 5 ∷ [];
  model_config = none;
  events = record { events = []; next = 0; seq = 0 };
}

abbrev forged : Snapshot ℕ ℕ ℕ
forged = record taken { simulation_id = "s2" }

abbrev sum_or : Option String → String
sum_or none = ""
sum_or (some s) = s

tampered_refused_example : IsProtected whole codec taken forged world
unfolding take_snapshot world_snapshot capture sealed with_config compute_checksum new_world
    snapshot_components snapshot_from snapshot_events code_events mode_name snapshot_names
    snapshot_tags new_component_store new_event_queue new_clock new_tag_registry new_tag_store
tampered_refused_example =
    tampered_refused whole codec none new_sim taken forged world refl refl (λ e.
      let same : text_key.same "s2" "s1" ≡ true = (text_key.same_iff "s2" "s1").1 (ap sum_or e) in
      absurd (ground arith))

-- The restore of the snapshot into its own world only raises the revision.
restored :
    (world_restore whole codec taken world >>= λ (e, w).
    let r : Option SnapshotError × ℕ = (e, w.revision) in some r)
    ≡ some (none, 1)
unfolding world_restore checked validate checksum_error compute_checksum mismatch mode_from_string
    restore_parts restore_rest finish_restore new_world restore_components restore_events push_coded
    new_component_store new_event_queue new_clock new_tag_registry new_tag_store Entity.snapshot
    Entity.restore Entity.index_dense new_entity_manager bump_revision
restored = refl
