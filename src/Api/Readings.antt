-- ===== src/Api/Readings.antt =====
-- What the readings of a simulation leave as it was.
use simulator.Common.{
  ◌≡◌, refl, sym, ap, subst, ◌∙◌, ◌⊎◌, inl, inr, true, Option, none, some, List, Bool, arith, ◌>>=◌,
  Returns, returns,
}
use Prim.Native.String.{String}
use simulator.Common.Float.{Float64}
use simulator.Common.Maps.{lookup, put, text_key, lookup-put, lookup-put_other, key-cases}
use simulator.World.{World}
use simulator.Snapshot.{Snapshot, Codec}
use simulator.Runtime.{Simulation, is_running, LifecycleError}
use simulator.Runner.{ManagerError, lifecycle, Manager, lookup_sim, Managed}
use simulator.Runner.Control.{with_sim}
use simulator.Runner.Inspect.{
  SnapshotInfo, InspectError, manager_error, saved, snapshot_info, keep_encoded, keep_snapshot,
  snapshot_found, snapshot_of, restore_found, restore_simulation, snapshot_sim, restore_sim,
}
use simulator.Api.{
  Response, Reading, state_reading, events_reading, metrics_reading, stream_reading,
  snapshot_reading, restore_reading,
}
use simulator.Api.Inspect.{
  Json, ModelParts, restore_answer, snapshot_simulation, restore_decoded, read_world,
}

-- A reading that only looks, or one of a simulation that runs.
pub data Looks {W S D E : Type 0} (m : Manager W S D E) (id : String) : Reading D → Type 0 where
  of_state : Looks m id state_reading
  of_events : Looks m id events_reading
  of_metrics : Looks m id metrics_reading
  of_stream : Looks m id stream_reading
  of_snapshot : Looks m id snapshot_reading
  while_running :
      {body : D} (mg : Managed W D E)
      → lookup id m.sims ≡ some mg
      → is_running mg.sim.state ≡ true
      → Looks m id (restore_reading body)

-- Every simulation is found as before.
pub KeepsSims : {W S D E : Type 0} → Manager W S D E → Response D × Manager W S D E → Type 0
KeepsSims {W} {S} {D} {E} m (r, m') = (k : String) → lookup k m'.sims ≡ lookup k m.sims

lookup-put_same :
    {V : Type 0} (k j : String) (v : V) (m : List (String × V))
    → lookup j m ≡ some v
    → lookup k (put j v m) ≡ lookup k m
lookup-put_same {V} k j v m e = elim (key-cases k j) [
  | inl same ↦
      ap (λ i. lookup i (put j v m)) same
      ∙ lookup-put j v m
      ∙ sym e
      ∙ ap (λ i. lookup i m) (sym same)
  | inr ne ↦ lookup-put_other k j v m ne
]

lookup_sim-found :
    {W S D E : Type 0} (m : Manager W S D E) (id : String) (mg : Managed W D E)
    → lookup id m.sims ≡ some mg
    → lookup_sim m id ≡ inr mg
unfolding lookup_sim
lookup_sim-found m id mg known = ground (arith, known)

module _ (f : Float64) {V P Q S D E R N : Type 0} (j : Json f.Time P N D R)
    (c : Codec f.Time V P Q D R) where
  saved-sims :
      (m : Manager (World V Q f.Time P) S D E) (snap : Snapshot f.Time D R) (r : Option E × S)
      → (saved m snap r).1.sims ≡ m.sims
  unfolding saved
  saved-sims m snap (some e, s) = refl
  saved-sims m snap (none, s) = refl

  module _ (save : SnapshotInfo D → S → Option E × S)
      (to_json : Snapshot f.Time D R → Option D) where
    keep_encoded-sims :
        (m : Manager (World V Q f.Time P) S D E) (id : String) (snap : Snapshot f.Time D R)
        (r : Option D)
        → (keep_encoded save to_json m id snap r).1.sims ≡ m.sims
    unfolding keep_encoded
    keep_encoded-sims m id snap none = refl
    keep_encoded-sims m id snap (some content) =
        saved-sims m snap (save (snapshot_info id snap content) m.store)

    keep_snapshot-sims :
        (m : Manager (World V Q f.Time P) S D E) (id : String)
        (r : InspectError E ⊎ Snapshot f.Time D R)
        → (keep_snapshot save to_json m id r).1.sims ≡ m.sims
    unfolding keep_snapshot
    keep_snapshot-sims m id (inl e) = refl
    keep_snapshot-sims m id (inr snap) = keep_encoded-sims m id snap (to_json snap)

    snapshot_found-sims :
        (config : Option D) (m : Manager (World V Q f.Time P) S D E) (id : String)
        (r : ManagerError E ⊎ Managed (World V Q f.Time P) D E)
        → (snapshot_found f c save to_json config m id r).1.sims ≡ m.sims
    unfolding snapshot_found
    snapshot_found-sims config m id (inl e) = refl
    snapshot_found-sims config m id (inr mg) =
        keep_snapshot-sims m id (snapshot_of f c config mg.sim)

    snapshot_simulation-KeepsSims :
        (config : Option D) (m : Manager (World V Q f.Time P) S D E) (id : String)
        → KeepsSims m (snapshot_simulation f j c save to_json config m id)
    unfolding snapshot_simulation snapshot_sim KeepsSims
    snapshot_simulation-KeepsSims config m id k =
        ap (lookup k) (snapshot_found-sims config m id (lookup_sim m id))

  -- The manager's Restore of a simulation that runs.
  restore_refused :
      (restore_config : Option (D → Option E)) (snap : Snapshot f.Time D R)
      (m : Manager (World V Q f.Time P) S D E) (id : String) (mg : Managed (World V Q f.Time P) D E)
      → lookup id m.sims ≡ some mg
      → is_running mg.sim.state ≡ true
      → restore_sim f c restore_config snap m id
        ≡ some (
          some (manager_error (lifecycle LifecycleError.already_running)),
          with_sim m id mg mg.sim,
        )
  unfolding restore_sim restore_found restore_simulation
  restore_refused restore_config snap m id mg known running =
      ap (restore_found f c restore_config snap m id) (lookup_sim-found m id mg known)
      ∙ rw running refl

  restore_decoded-KeepsSims :
      (restore_config : Option (D → Option E)) (m : Manager (World V Q f.Time P) S D E)
      (id : String) (body : Option (Snapshot f.Time D R)) (mg : Managed (World V Q f.Time P) D E)
      → lookup id m.sims ≡ some mg
      → is_running mg.sim.state ≡ true
      → Returns (KeepsSims m) (restore_decoded f j c restore_config m id body)
  unfolding restore_decoded KeepsSims
  restore_decoded-KeepsSims restore_config m id none mg known running = returns (λ k. refl)
  restore_decoded-KeepsSims restore_config m id (some snap) mg known running =
      subst (λ r. Returns (KeepsSims m) (r >>= λ (err, m'). some (restore_answer err, m')))
        (sym (restore_refused restore_config snap m id mg known running))
        (returns (λ k. lookup-put_same k id mg m.sims known))

  module _ (save : SnapshotInfo D → S → Option E × S) (to_json : Snapshot f.Time D R → Option D)
      (parts : String → ModelParts N D E) (flusher : Bool)
      (seen : String → List (Simulation (World V Q f.Time P) E)) where
    -- A reading of the state, the events, the metrics, the stream or a snapshot, of any simulation, and the restore
    -- of one that runs, whatever its body is: they answer without a panic, and leave every simulation as
    -- it was.
    pub read_world-KeepsSims :
        (m : Manager (World V Q f.Time P) S D E) (id : String) (r : Reading D)
        → Looks m id r
        → Returns (KeepsSims m) (read_world f j c save to_json parts flusher seen r m id)
    unfolding read_world KeepsSims
    read_world-KeepsSims m id _ of_state = returns (λ k. refl)
    read_world-KeepsSims m id _ of_events = returns (λ k. refl)
    read_world-KeepsSims m id _ of_metrics = returns (λ k. refl)
    read_world-KeepsSims m id _ of_stream = returns (λ k. refl)
    read_world-KeepsSims m id _ of_snapshot =
        returns (snapshot_simulation-KeepsSims save to_json (parts id).config m id)
    read_world-KeepsSims m id _ (while_running {body} mg known running) =
        restore_decoded-KeepsSims (parts id).restore_config m id (j.to_snapshot body) mg known
          running
