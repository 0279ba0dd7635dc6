-- ===== src/Runner/Statuses.antt =====
-- The status that a control call leaves in the store of records.
use simulator.Common.{
  ◌≡◌, refl, ap, ◌∙◌, ◌≢◌, inl, inr, Bool, true, false, ◌||◌, Option, none, some, arith, Bool-cases,
}
use Prim.Native.String.{String}
use simulator.Common.Maps.{lookup, text_key, lookup-put, lookup-put_other}
use simulator.Runtime.{
  Outcome, Simulation, LifecycleError, StepReply, refused, returned, panics, is_running, is_paused,
  pause, resume, stop, begin, single_step,
}
use simulator.Runner.{
  Managed, ManagerError, not_found, lifecycle, step_error, Persistence, Metrics, Manager, status_of,
  update_status,
}
use simulator.Runner.Control.{
  count_start, with_sim, after_lookup, after_control, after_start, after_single_step, control,
  pause_sim, resume_sim, stop_sim, start_sim, step_sim,
}

-- The control calls on a simulation that exists.
pub data Op : Type 0 where
  start_op pause_op resume_op stop_op step_op : Op

abbrev pub is_ok : {E : Type 0} → Option (ManagerError E) → Bool
is_ok none = true
is_ok (some _) = false

-- What the call of the runtime behind an operation makes of a simulation.
abbrev pub called :
    {W E : Type 0}
    → (W → W × Outcome E)
    → (Simulation W E → Simulation W E)
    → Op
    → Simulation W E
    → Simulation W E
called exec working start_op s = (begin s).1
called exec working pause_op s = (pause s).1
called exec working resume_op s = (resume s).1
called exec working stop_op s = (stop s).1
called exec working step_op s = (single_step exec working s).1

-- The simulation whose status is recorded: Step reads it again, the others record what they did.
abbrev pub observed :
    {W E : Type 0} → (Simulation W E → Simulation W E) → Op → Simulation W E → Simulation W E
observed meanwhile step_op s = meanwhile s
observed meanwhile _ s = s

module _ {W S D E : Type 0} where
  abbrev pub perform :
      Persistence S D E
      → (Simulation W E → Simulation W E)
      → (W → W × Outcome E)
      → (Simulation W E → Simulation W E)
      → Op
      → Manager W S D E
      → String
      → Option (ManagerError E) × Manager W S D E
  perform p meanwhile exec working start_op m id = start_sim p meanwhile m id
  perform p meanwhile exec working pause_op m id = pause_sim p meanwhile m id
  perform p meanwhile exec working resume_op m id = resume_sim p meanwhile m id
  perform p meanwhile exec working stop_op m id = stop_sim p meanwhile m id
  perform p meanwhile exec working step_op m id = step_sim p meanwhile exec working m id

  -- The records after a call that makes `does` of a simulation, records the status of `sees` of that,
  -- and leaves what `meanwhile` makes of it: written once on success, and untouched by an error. The
  -- other simulations are as they were.
  pub record IsRecorded (p : Persistence S D E)
      (meanwhile does sees : Simulation W E → Simulation W E) (m : Manager W S D E) (id : String)
      (r : Option (ManagerError E) × Manager W S D E) : Type 0 where
    pub others : (k : String) → k ≢ id → lookup k r.1.sims ≡ lookup k m.sims
    pub on_success :
        is_ok r.0 ≡ true
        → (mg : Managed W D E) × (lookup id m.sims ≡ some mg)
          × (lookup id r.1.sims ≡ some (record mg { sim = meanwhile (does mg.sim) }))
          × (r.1.store ≡ (p.update_status id (status_of (sees (does mg.sim)).state) m.store).1)
    pub on_error : is_ok r.0 ≡ false → r.1.store ≡ m.store

module _ {W E : Type 0} (s : Simulation W E) where
  begin-status : (begin s).0 ≡ none → "running" ≡ status_of (begin s).1.state
  unfolding begin status_of
  begin-status e = elim (Bool-cases (is_running s.state)) [
    | inl r ↦ absurd (ground arith)
    | inr r ↦ ground arith
  ]

  pause-status : (pause s).0 ≡ none → "paused" ≡ status_of (pause s).1.state
  unfolding pause status_of
  pause-status e = elim (Bool-cases (is_running s.state)) [
    | inl r ↦ ground arith
    | inr r ↦ absurd (ground arith)
  ]

  resume-status : (resume s).0 ≡ none → "running" ≡ status_of (resume s).1.state
  unfolding resume status_of
  resume-status e = elim (Bool-cases (is_paused s.state)) [
    | inl r ↦ ground arith
    | inr r ↦ absurd (ground arith)
  ]

  stop-status : (stop s).0 ≡ none → "stopped" ≡ status_of (stop s).1.state
  unfolding stop status_of
  stop-status e = elim (Bool-cases (is_running s.state || is_paused s.state)) [
    | inl r ↦ ground arith
    | inr r ↦ absurd (ground arith)
  ]

module _ {W S D E : Type 0} (p : Persistence S D E)
    (meanwhile does sees : Simulation W E → Simulation W E) (m : Manager W S D E)
    (id : String) where
  -- A call that failed before or in the simulation.
  refused-IsRecorded :
      (e : ManagerError E) (mg : Managed W D E) (sim : Simulation W E)
      → IsRecorded p meanwhile does sees m id (some e, with_sim m id mg sim)
  refused-IsRecorded e mg sim = record {
    others = λ k ne. lookup-put_other k id (record mg { sim = sim }) m.sims ne;
    on_success = λ q. absurd (ground arith);
    on_error = λ _. refl;
  }

  missing-IsRecorded : (e : ManagerError E) → IsRecorded p meanwhile does sees m id (some e, m)
  missing-IsRecorded e = record {
    others = λ _ _. refl;
    on_success = λ q. absurd (ground arith);
    on_error = λ _. refl;
  }

  -- A call that succeeded: it may have counted, and wrote the status of what it saw.
  written-IsRecorded :
      (met : Option Metrics) (mg : Managed W D E) (sim : Simulation W E) (status : String)
      → lookup id m.sims ≡ some mg
      → sim ≡ does mg.sim
      → status ≡ status_of (sees sim).state
      → IsRecorded p meanwhile does sees m id (
        none,
        update_status p (with_sim (record m { met = met }) id mg (meanwhile sim)) id status,
      )
  unfolding update_status
  written-IsRecorded met mg sim status known made e = record {
    others = λ k ne. lookup-put_other k id (record mg { sim = meanwhile sim }) m.sims ne;
    on_success = λ _. (
      mg,
      known,
      lookup-put id (record mg { sim = meanwhile sim }) m.sims
          ∙ ap (λ t. some (record mg { sim = meanwhile t })) made,
      ap (λ s. (p.update_status id s m.store).1) (e ∙ ap (λ t. status_of (sees t).state) made),
    );
    on_error = λ q. absurd (ground arith);
  }

  after_lookup-IsRecorded :
      (next : Managed W D E → Option (ManagerError E) × Manager W S D E)
      → ((mg : Managed W D E)
          → lookup id m.sims ≡ some mg
          → IsRecorded p meanwhile does sees m id (next mg))
      → (found : Option (Managed W D E)) → lookup id m.sims ≡ found
      → IsRecorded p meanwhile does sees m id (after_lookup m next found)
  unfolding after_lookup
  after_lookup-IsRecorded next each none known = missing-IsRecorded not_found
  after_lookup-IsRecorded next each (some mg) known = each mg known

module _ {W S D E : Type 0} (p : Persistence S D E) (meanwhile : Simulation W E → Simulation W E)
    (m : Manager W S D E) (id : String) where
  -- control, for a call that leaves the status it names when it succeeds.
  control-IsRecorded :
      (f : Simulation W E → Option LifecycleError × Simulation W E) (status : String)
      → ((s : Simulation W E) → (f s).0 ≡ none → status ≡ status_of (f s).1.state)
      → IsRecorded p meanwhile (λ s. (f s).1) (λ s. s) m id (control p meanwhile f status m id)
  unfolding control after_control
  control-IsRecorded f status leaves =
      after_lookup-IsRecorded p meanwhile (λ s. (f s).1) (λ s. s) m id
        (λ mg. after_control p meanwhile status m id mg (f mg.sim))
        (λ mg known. after mg known (f mg.sim) refl (leaves mg.sim)) (lookup id m.sims) refl
    where
      after :
          (mg : Managed W D E)
          → lookup id m.sims ≡ some mg
          → (r : Option LifecycleError × Simulation W E) → r.1 ≡ (f mg.sim).1
          → (r.0 ≡ none → status ≡ status_of r.1.state)
          → IsRecorded p meanwhile
              (λ s. (f s).1)
              (λ s. s)
              m
              id
              (after_control p meanwhile status m id mg r)
      after mg known (some e, sim) made leaves =
          refused-IsRecorded p meanwhile (λ s. (f s).1) (λ s. s) m id (lifecycle e) mg sim
      after mg known (none, sim) made leaves =
          written-IsRecorded p meanwhile (λ s. (f s).1) (λ s. s) m id m.met mg sim status known made
            (leaves refl)

  start-IsRecorded :
      IsRecorded p meanwhile (λ s. (begin s).1) (λ s. s) m id (start_sim p meanwhile m id)
  unfolding start_sim after_start
  start-IsRecorded =
      after_lookup-IsRecorded p meanwhile (λ s. (begin s).1) (λ s. s) m id
        (λ mg. after_start p meanwhile m id mg (begin mg.sim))
        (λ mg known. after mg known (begin mg.sim) refl (begin-status mg.sim)) (lookup id m.sims)
        refl
    where
      after :
          (mg : Managed W D E)
          → lookup id m.sims ≡ some mg
          → (r : Option LifecycleError × Simulation W E) → r.1 ≡ (begin mg.sim).1
          → (r.0 ≡ none → "running" ≡ status_of r.1.state)
          → IsRecorded p meanwhile
              (λ s. (begin s).1)
              (λ s. s)
              m
              id
              (after_start p meanwhile m id mg r)
      after mg known (some e, sim) made leaves =
          refused-IsRecorded p meanwhile (λ s. (begin s).1) (λ s. s) m id (lifecycle e) mg sim
      after mg known (none, sim) made leaves =
          written-IsRecorded p meanwhile (λ s. (begin s).1) (λ s. s) m id (count_start m.met) mg sim
            "running" known made (leaves refl)

  module _ (exec : W → W × Outcome E) (working : Simulation W E → Simulation W E) where
    step-IsRecorded :
        IsRecorded p meanwhile
          (called exec working step_op)
          meanwhile
          m
          id
          (step_sim p meanwhile exec working m id)
    unfolding step_sim after_single_step
    step-IsRecorded =
        after_lookup-IsRecorded p meanwhile (called exec working step_op) meanwhile m id
          (λ mg. after_single_step p meanwhile m id mg (single_step exec working mg.sim))
          (λ mg known. after mg known (single_step exec working mg.sim) refl) (lookup id m.sims)
          refl
      where
        after :
            (mg : Managed W D E)
            → lookup id m.sims ≡ some mg
            → (r : StepReply E × Simulation W E) → r.1 ≡ (single_step exec working mg.sim).1
            → IsRecorded p meanwhile
                (λ s. (single_step exec working s).1)
                meanwhile
                m
                id
                (after_single_step p meanwhile m id mg r)
        after mg known (refused, sim) made =
            refused-IsRecorded p meanwhile (called exec working step_op) meanwhile m id
              (lifecycle LifecycleError.already_running) mg sim
        after mg known (panics e, sim) made =
            refused-IsRecorded p meanwhile (called exec working step_op) meanwhile m id
              (step_error e) mg sim
        after mg known (returned (some e), sim) made =
            refused-IsRecorded p meanwhile (called exec working step_op) meanwhile m id
              (step_error e) mg sim
        after mg known (returned none, sim) made =
            written-IsRecorded p meanwhile (called exec working step_op) meanwhile m id m.met mg sim
              (status_of (meanwhile sim).state) known made refl

    -- Start, Pause, Resume, Stop and Step of a simulation, whatever the executor does and whatever
    -- others do to that simulation while a Step works (`working`) and between the call of the runtime
    -- and the record (`meanwhile`). A success writes one status to the store: Step the one that the
    -- simulation has when Step reads it, the others the one that their call of the runtime left, which
    -- it may not have any more; the simulation is left as the call and then the others made it. An
    -- error, also for an identifier that is not known, writes nothing; no other simulation changes.
    pub perform-IsRecorded :
        (op : Op)
        → IsRecorded p meanwhile
            (called exec working op)
            (observed meanwhile op)
            m
            id
            (perform p meanwhile exec working op m id)
    unfolding pause_sim resume_sim stop_sim
    perform-IsRecorded start_op = start-IsRecorded
    perform-IsRecorded pause_op = control-IsRecorded pause "paused" (λ s. pause-status s)
    perform-IsRecorded resume_op = control-IsRecorded resume "running" (λ s. resume-status s)
    perform-IsRecorded stop_op = control-IsRecorded stop "stopped" (λ s. stop-status s)
    perform-IsRecorded step_op = step-IsRecorded
