-- ===== src/Runner/Replay.antt =====
-- Replay makes the simulation anew from its stored run configuration, which names no owner.
use simulator.Common.{
  ◌^◌, ◌≡◌, refl, ◌⊎◌, inl, inr, Bool, true, false, Option, none, some, arith, leb, if◌then◌else◌,
  store,
}
use Prim.Native.String.{String}
use simulator.Common.Maps.{lookup, text_key, lookup-put}
use simulator.Registry.{Entry}
use simulator.Runtime.{Simulation, LifecycleError, stop, begin}
use simulator.Runner.{
  SimulationInfo, CreateRequest, Model, Managed, ManagerError, Persistence, Manager, owner_ptr,
  is_empty, requested_mode, requested_entry, configure_answer, run_config, managed_from,
  instantiate, after_init, after_mode, after_configure, after_factory, after_upsert, after_entry,
  update_status, status_of, get_info, seed_range,
}
use simulator.World.{Mode}
use simulator.Runner.Control.{
  replay_request, with_sim, after_lookup, after_instantiate, after_restart, replay_sim,
}

module _ {W D E : Type 0} where
  -- What holds of the simulation that a call gives, if it gives one.
  pub data Gives (P : Managed W D E → Type 0) : (ManagerError E ⊎ Managed W D E) → Type 0 where
    gives_none : {e : ManagerError E} → Gives P (inl e)
    gives : {mg : Managed W D E} → P mg → Gives P (inr mg)

  abbrev pub HasOwner : Option String → Managed W D E → Type 0
  HasOwner owner mg = mg.info.owner_id ≡ owner

  module _ (e : Entry (Model W D E)) (mdl : Model W D E) (req : CreateRequest D) (id : String) where
    after_init-owner :
        (mode : Mode) (r : E ⊎ W)
        → Gives (HasOwner (owner_ptr req.owner_id)) (after_init e req id mode r)
    unfolding after_init managed_from
    after_init-owner mode (inl err) = gives_none
    after_init-owner mode (inr w) = gives refl

    after_mode-owner :
        (mode : Option Mode)
        → Gives (HasOwner (owner_ptr req.owner_id)) (after_mode e mdl req id mode)
    unfolding after_mode
    after_mode-owner none = gives_none
    after_mode-owner (some mode) = after_init-owner mode (mdl.init (run_config e req mode))

    after_configure-owner :
        (r : Option E) → Gives (HasOwner (owner_ptr req.owner_id)) (after_configure e mdl req id r)
    unfolding after_configure
    after_configure-owner (some err) = gives_none
    after_configure-owner none = after_mode-owner (requested_mode mdl.mode req.mode)

module _ {W S D E : Type 0} (p : Persistence S D E) (m : Manager W S D E)
    (req : CreateRequest D) where
  after_factory-owner :
      (e : Entry (Model W D E)) (id : String) (f : Option (Model W D E))
      → Gives (HasOwner (owner_ptr req.owner_id)) (after_factory p m e req id f).0
  unfolding after_factory after_upsert
  after_factory-owner e id none = gives_none
  after_factory-owner e id (some mdl) = upserted (p.upsert_model e.info m.store)
    where
      upserted :
          (r : Option E × S)
          → Gives (HasOwner (owner_ptr req.owner_id)) (after_upsert p m e mdl req id r).0
      upserted (some err, store) = gives_none
      upserted (none, store) = after_configure-owner e mdl req id (configure_answer mdl req.config)

  after_entry-owner :
      (id : String) (r : ManagerError E ⊎ Entry (Model W D E))
      → Gives (HasOwner (owner_ptr req.owner_id)) (after_entry p m req id r).0
  unfolding after_entry
  after_entry-owner id (inl err) = gives_none
  after_entry-owner id (inr e) = after_factory-owner e id e.factory

  -- The simulation that instantiate makes has the owner that the request names.
  instantiate-owner :
      (fresh : String) → Gives (HasOwner (owner_ptr req.owner_id)) (instantiate p fresh m req).0
  unfolding instantiate
  instantiate-owner fresh =
      let id = if is_empty req.id then fresh else req.id in
      either (leb (2 ^ 63) req.seed) (inl seed_range, m)
        (after_entry p m req id (requested_entry m.registry req)) gives_none
        (after_entry-owner id (requested_entry m.registry req))
    where
      either :
          (b : Bool) (x y : (ManagerError E ⊎ Managed W D E) × Manager W S D E)
          → Gives (HasOwner (owner_ptr req.owner_id)) x.0
          → Gives (HasOwner (owner_ptr req.owner_id)) y.0
          → Gives (HasOwner (owner_ptr req.owner_id)) (if b then x else y).0
      either true x y gx gy = gx
      either false x y gx gy = gy

module _ {W S D E : Type 0} (p : Persistence S D E) (meanwhile : Simulation W E → Simulation W E)
    (null : D) (m : Manager W S D E) (id : String) where
  -- The owner of a simulation after a call that answered with no error.
  abbrev pub Unowned : Option (ManagerError E) × Manager W S D E → Type 0
  Unowned r =
      r.0 ≡ none
      → (info : SimulationInfo D) × (get_info r.1 id ≡ some info) × (info.owner_id ≡ none)

  -- The record of a simulation that was just put.
  get_info-with_sim :
      (m' : Manager W S D E) (mg : Managed W D E) (sim : Simulation W E) (status : String)
      → get_info (update_status p (with_sim m' id mg sim) id status) id
        ≡ some (record mg.info { status = status_of sim.state })
  unfolding get_info update_status
  get_info-with_sim m' mg sim status =
      rw (lookup-put id (record mg { sim = sim }) m'.sims, get_info) refl

  after_instantiate-Unowned :
      (made : ManagerError E ⊎ Managed W D E) (m' : Manager W S D E)
      → Gives (HasOwner none) made
      → Unowned (after_instantiate p meanwhile id (made, m'))
  unfolding after_instantiate after_restart
  after_instantiate-Unowned (inl e) m' _ = λ q. absurd (ground arith)
  after_instantiate-Unowned (inr fresh) m' (gives unowned) = restarted (begin fresh.sim)
    where
      restarted :
          (r : Option LifecycleError × Simulation W E)
          → Unowned (after_restart p meanwhile m' id fresh r)
      restarted (some e, sim) = λ q. absurd (ground arith)
      restarted (none, sim) = λ _. (
        record fresh.info { status = status_of (meanwhile sim).state },
        get_info-with_sim m' fresh (meanwhile sim) "running",
        unowned,
      )

  -- A simulation that was replayed without an error has no owner, whoever owned it.
  pub replay_sim-Unowned : Unowned (replay_sim p meanwhile null m id)
  unfolding replay_sim after_lookup replay_request owner_ptr
  replay_sim-Unowned = found (lookup id m.sims)
    where
      found :
          (f : Option (Managed W D E))
          → Unowned (
              after_lookup m
                (λ mg.
                  let stopped = with_sim m id mg (stop mg.sim).1 in
                  after_instantiate p meanwhile id
                    (instantiate p "" stopped (replay_request null id mg.info.config)))
                f)
      found none = λ q. absurd (ground arith)
      found (some mg) =
          let stopped = with_sim m id mg (stop mg.sim).1 in
          let req = replay_request null id mg.info.config in
          after_instantiate-Unowned (instantiate p "" stopped req).0
            (instantiate p "" stopped req).1 (instantiate-owner p stopped req "")
