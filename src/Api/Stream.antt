-- ===== src/Api/Stream.antt =====
-- internal/api/handlers.go: simulationStream, which writes the progress of a simulation at each tick
-- of a timer. What is observed is given as the list of the simulations at these ticks, up to the
-- moment at which the client goes away.
use simulator.Common.{
  ℕ, suc, ◌≡◌, refl, ap, ◌∙◌, ◌⊎◌, inl, inr, Bool, true, false, some, List, [], ◌∷◌, ◌++◌, map,
  if◌then◌else◌, get_elem?,
}
use Prim.Native.String.{String}
use simulator.Runtime.{State, running, paused, completed, failed, stopped, Simulation}
use simulator.Runner.{Manager, Managed, ManagerError, lookup_sim}
use simulator.Api.{Response, api_error}

unfoldable pub status_string : State → String
status_string running = "running"
status_string paused = "paused"
status_string completed = "completed"
status_string failed = "failed"
status_string stopped = "stopped"
status_string _ = "created"

unfoldable pub is_terminal : State → Bool
is_terminal completed = true
is_terminal failed = true
is_terminal stopped = true
is_terminal _ = false

pub record Progress : Type 0 where
  pub id : String
  pub status : String
  pub tick : ℕ
  pub steps : ℕ

module _ {W E : Type 0} (tick : W → ℕ) (id : String) where
  unfoldable pub progress : Simulation W E → Progress
  progress s = record {
    id = id;
    status = status_string s.state;
    tick = tick s.world;
    steps = s.steps;
  }

  -- The loop, until a terminal state or the end of the observations.
  unfoldable pub stream : List (Simulation W E) → List Progress
  stream [] = []
  stream (s ∷ seen) =
      let rest = stream seen in progress s ∷ (if is_terminal s.state then [] else rest)

  unfoldable pub stream_found :
      {D : Type 0}
      → Bool
      → List (Simulation W E)
      → ManagerError E ⊎ Managed W D E
      → Response D ⊎ List Progress
  stream_found flusher seen (inl e) = inl (api_error 404 "not_found")
  stream_found flusher seen (inr mg) =
      if flusher then inr (stream seen) else inl (api_error 500 "internal")

module _ {W S D E : Type 0} where
  -- An answer, or the events that are written.
  unfoldable pub simulation_stream :
      (W → ℕ) → Bool → Manager W S D E → String → List (Simulation W E) → Response D ⊎ List Progress
  simulation_stream tick flusher m id seen = stream_found tick id flusher seen (lookup_sim m id)

module _ {W E : Type 0} (tick : W → ℕ) (id : String) where
  -- While no state is terminal, each observation is written once and in its order.
  stream_running :
      (before after : List (Simulation W E))
      → ((k : ℕ) (s : Simulation W E) → get_elem? before k ≡ some s → is_terminal s.state ≡ false)
      → stream tick id (before ++ after) ≡ map (progress tick id) before ++ stream tick id after
  unfolding stream
  stream_running [] after h = refl
  stream_running (s ∷ before) after h =
      rw (h 0 s refl)
        (ap (◌∷◌ (progress tick id s)) (stream_running before after (λ k r e. h (suc k) r e)))

  -- The events of a stream are the observations up to the first terminal state and with it, each once
  -- and in its order; nothing follows that one.
  pub stream-map :
      (before after : List (Simulation W E)) (s : Simulation W E)
      → ((k : ℕ) (r : Simulation W E) → get_elem? before k ≡ some r → is_terminal r.state ≡ false)
      → is_terminal s.state ≡ true
      → stream tick id (before ++ s ∷ after)
        ≡ map (progress tick id) before ++ progress tick id s ∷ []
  unfolding stream
  stream-map before after s h last =
      stream_running before (s ∷ after) h
      ∙ ap
          (λ b.
            map (progress tick id) before
            ++ progress tick id s ∷ (if b then [] else stream tick id after))
          last
