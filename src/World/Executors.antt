-- ===== src/World/Executors.antt =====
-- pkg/simulation/executor.go: newExecutor, which picks the executor of a model by its mode. A word of
-- 64 bits stands for the int of the workers.
use simulator.Common.{ℕ, ◌^◌, ◌||◌, Option, none, some, List, ◌>>=◌, leb, ◌==◌, if◌then◌else◌}
use simulator.Scheduler.{System}
use simulator.World.{Mode, mode_tick, mode_event}
use simulator.World.Execution.{Scheduler, new_scheduler}

-- The interfaces of a model that the code asks for: its systems, its Step, its HandleEvent.
pub record Abilities (K H : Type 0) : Type 0 where
  pub systems : Option (List System)
  pub tick : Option K
  pub event : Option H

pub data Executor (K H : Type 0) : Type 0 where
  system_tick_executor : Scheduler → Executor K H
  tick_executor : K → Executor K H
  event_executor : H → Executor K H
  err_bad_mode : Executor K H

-- The workers of a configuration, or as many as the runtime has.
unfoldable pub workers_or : ℕ → ℕ → ℕ
workers_or workers procs = if workers == 0 || leb (2 ^ 63) workers then procs else workers

module _ {K H : Type 0} where
  unfoldable pub tick_model : Option K → Executor K H
  tick_model none = err_bad_mode
  tick_model (some k) = tick_executor k

  unfoldable pub event_model : Option H → Executor K H
  event_model none = err_bad_mode
  event_model (some h) = event_executor h

  -- The systems of a model come before its Step; `none` is a panic of newScheduler.
  unfoldable pub tick_mode : ℕ → Option K → Option (List System) → Option (Executor K H)
  tick_mode workers tick none = some (tick_model tick)
  tick_mode workers tick (some systems) =
      new_scheduler systems workers >>= λ s. some (system_tick_executor s)

  unfoldable pub new_executor : Mode → ℕ → ℕ → Abilities K H → Option (Executor K H)
  new_executor mode_tick workers procs m = tick_mode (workers_or workers procs) m.tick m.systems
  new_executor mode_event workers procs m = some (event_model m.event)
