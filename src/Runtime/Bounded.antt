-- ===== src/Runtime/Bounded.antt =====
-- RunN, undisturbed.
use simulator.Common.{
  ℕ, zero, suc, ◌+◌, ◌*◌, ◌^◌, ◌≤◌, ◌<◌, ◌≡◌, refl, ◌∙◌, Bool, true, false, Option, none, some,
  List, [], ◌∷◌, ◌++◌, arith, leb, length,
}
use simulator.Entity.{u64}
use simulator.Runtime.{
  running, completed, Outcome, more, Place, entry, head, check, stepping, broken, ended, Loop,
  Simulation, returned, is_running, begin, at_head, at_check, at_step, complete, finalize, advance,
  run_loop, run_limited, run_n, error_of, has_ended,
}

module _ {W E : Type 0} (exec : W → W × Outcome E) (n : ℕ) where
  abbrev limit : Option (ℕ → W → Bool)
  limit = some (λ steps w. leb n steps)

  -- The world after `k` steps.
  abbrev pub world_after : ℕ → W → W
  world_after zero w = w
  world_after (suc k) w = world_after k (exec w).0

  -- Each of the first `k` steps has more to do.
  abbrev pub HasSteps : ℕ → W → Type 0
  HasSteps zero w = Unit {0}
  HasSteps (suc k) w = ((exec w).1 ≡ more) × HasSteps k (exec w).0

  -- A running simulation.
  abbrev at_work : ℕ → W → Option ℕ → List (Loop E) → Simulation W E
  at_work steps w cancel loops = record {
    state = running;
    err = none;
    steps = steps;
    world = w;
    cancel = cancel;
    loops = loops;
  }

  abbrev at_place : Place E → Loop E
  at_place p = record { place = p; cancelled = false; watching = true }

  module _ (i : ℕ) (cancel : Option ℕ) (loops : List (Loop E)) where
    from_head :
        (steps : ℕ) (w : W)
        → advance exec limit i (at_place head) (at_work steps w cancel loops)
          ≡ (check, at_work steps w cancel loops)
    unfolding advance at_head
    from_head steps w = refl

    from_check :
        (steps : ℕ) (w : W)
        → steps < n
        → advance exec limit i (at_place check) (at_work steps w cancel loops)
          ≡ (stepping, at_work steps w cancel loops)
    unfolding advance at_check
    from_check steps w h = let below : leb n steps ≡ false = ground arith in rw below refl

    from_stepping :
        (steps : ℕ) (w : W)
        → (exec w).1 ≡ more
        → advance exec limit i (at_place stepping) (at_work steps w cancel loops)
          ≡ (head, at_work (u64 (steps + 1)) (exec w).0 cancel loops)
    unfolding advance at_step
    from_stepping steps w e = ground arith

    at_limit :
        (steps : ℕ) (w : W)
        → n ≤ steps
        → advance exec limit i (at_place check) (at_work steps w cancel loops)
          ≡ (broken none, record (at_work steps w cancel loops) { state = completed })
    unfolding advance at_check complete
    at_limit steps w h = let above : leb n steps ≡ true = ground arith in rw above refl

    at_end :
        (steps : ℕ) (w : W)
        → advance exec limit i
            (at_place (broken none))
            (record (at_work steps w cancel loops) { state = completed })
          ≡ (ended, record (at_work steps w none loops) { state = completed })
    unfolding advance finalize complete
    at_end steps w = refl

    goes_on :
        (fuel : ℕ) (p : Place E) (s : Simulation W E) (p' : Place E) (t : Simulation W E)
        → advance exec limit i (at_place p) s ≡ (p', t)
        → has_ended p' ≡ false
        → run_loop exec limit i (suc fuel) p s ≡ run_loop exec limit i fuel p' t
    unfolding run_loop
    goes_on fuel p s p' t e h = ground arith

    stops_there :
        (fuel : ℕ) (p : Place E) (s t : Simulation W E)
        → advance exec limit i (at_place p) s ≡ (ended, t)
        → run_loop exec limit i (suc fuel) p s ≡ some (error_of p, t)
    unfolding run_loop
    stops_there fuel p s t e = ground arith

    -- One round of the loop, if the step has more to do.
    round :
        (fuel steps : ℕ) (w : W)
        → steps < n
        → (exec w).1 ≡ more
        → run_loop exec limit i (suc (suc (suc fuel))) head (at_work steps w cancel loops)
          ≡ run_loop exec limit i fuel head (at_work (u64 (steps + 1)) (exec w).0 cancel loops)
    round fuel steps w h e =
        goes_on (suc (suc fuel)) head (at_work steps w cancel loops) check
          (at_work steps w cancel loops) (from_head steps w) refl
        ∙ goes_on (suc fuel) check (at_work steps w cancel loops) stepping
            (at_work steps w cancel loops) (from_check steps w h) refl
        ∙ goes_on fuel stepping (at_work steps w cancel loops) head
            (at_work (u64 (steps + 1)) (exec w).0 cancel loops) (from_stepping steps w e) refl

    last_round :
        (fuel steps : ℕ) (w : W)
        → n ≤ steps
        → run_loop exec limit i (suc (suc (suc fuel))) head (at_work steps w cancel loops)
          ≡ some (none, record (at_work steps w none loops) { state = completed })
    last_round fuel steps w h =
        goes_on (suc (suc fuel)) head (at_work steps w cancel loops) check
          (at_work steps w cancel loops) (from_head steps w) refl
        ∙ goes_on (suc fuel) check (at_work steps w cancel loops) (broken none)
            (record (at_work steps w cancel loops) { state = completed }) (at_limit steps w h) refl
        ∙ stops_there fuel (broken none)
            (record (at_work steps w cancel loops) { state = completed })
            (record (at_work steps w none loops) { state = completed }) (at_end steps w)

    rounds :
        (k fuel steps : ℕ) (w : W)
        → steps + k ≡ n
        → n < 2 ^ 64
        → HasSteps k w
        → run_loop exec limit i (3 * k + (3 + fuel)) head (at_work steps w cancel loops)
          ≡ some (none, record (at_work n (world_after k w) none loops) { state = completed })
    rounds zero fuel steps w e h m =
        let f : 3 * 0 + (3 + fuel) ≡ suc (suc (suc fuel)) = omega arith in
        let g : steps ≡ n = omega arith in rw (f, g) (last_round fuel n w (omega arith))
    rounds (suc k) fuel steps w e h (m, rest) =
        let f : 3 * suc k + (3 + fuel) ≡ suc (suc (suc (3 * k + (3 + fuel)))) = omega arith in
        let word : u64 (steps + 1) ≡ steps + 1 = omega arith in
        rw f (
          round (3 * k + (3 + fuel)) steps w (omega arith) m
          ∙ rw word (rounds k fuel (steps + 1) (exec w).0 (omega arith) h rest))

  -- A run that is entered.
  abbrev entered : Simulation W E → List (Loop E)
  entered s = s.loops ++ (record { place = entry; cancelled = false; watching = true }) ∷ []

  enters :
      (s : Simulation W E) (fuel : ℕ)
      → run_loop exec limit
          (length s.loops)
          (suc fuel)
          entry
          (at_work 0 s.world s.cancel (entered s))
        ≡ run_loop exec limit
            (length s.loops)
            fuel
            head
            (at_work 0 s.world (some (length s.loops)) (entered s))
  unfolding run_loop advance
  enters s fuel = refl

  run_limited-eq :
      (s : Simulation W E) (fuel : ℕ) (e : Option E) (t : Simulation W E)
      → is_running s.state ≡ false
      → run_loop exec limit
          (length s.loops)
          fuel
          head
          (at_work 0 s.world (some (length s.loops)) (entered s))
        ≡ some (e, record t { state = completed })
      → run_limited exec limit (suc fuel) s ≡ some (returned e, record t { state = completed })
  unfolding run_limited begin
  run_limited-eq s fuel e t r h = let ran = enters s fuel ∙ h in ground (arith, ran)

  -- RunN on a simulation that is not running, undisturbed, with a model whose first `n` steps have
  -- more to do, makes exactly `n` steps: it returns no error and leaves the simulation completed.
  pub run_n_exact :
      (s : Simulation W E)
      → is_running s.state ≡ false
      → n < 2 ^ 64
      → HasSteps n s.world
      → (t : Simulation W E) × (run_n exec n s ≡ some (returned none, t))
        × (t.state ≡ completed)
        × (t.err ≡ none)
        × (t.steps ≡ n)
        × (t.world ≡ world_after n s.world)
  unfolding run_n
  run_n_exact s r h m =
      let i = length s.loops in
      let enough : 3 * n + 4 ≡ suc (3 * n + (3 + 0)) = omega arith in
      let ran = rounds i (some i) (entered s) n 0 0 s.world (omega arith) h m in
      (
        record (at_work n (world_after n s.world) none (entered s)) { state = completed },
        rw enough (
            run_limited-eq s (3 * n + (3 + 0)) none
              (at_work n (world_after n s.world) none (entered s)) r ran),
        refl,
        refl,
        refl,
        refl,
      )
