-- ===== src/World/Limits.antt =====
-- pkg/simulation/runtime.go (defaultLimit) and config.go: when a run that was given no limit stops.
use simulator.Common.{ℕ, Bool, true, not, Option, none, some, ltb, leb, if◌then◌else◌}
use simulator.Common.Float.{Float64}
use simulator.Event.{peek}
use simulator.World.{World, Mode, mode_tick, mode_event}

pub record Config (T : Type 0) : Type 0 where
  pub mode : Mode
  pub max_ticks : ℕ
  pub max_time : T
  pub workers : ℕ

module _ (f : Float64) {V R P : Type 0} where
  -- `e.Time >= s.cfg.MaxTime` of the first event; a queue with no events ends the run.
  unfoldable pub past_max_time : Config f.Time → World V R f.Time P → Bool
  past_max_time cfg w = elim (peek f w.events) [
    | none ↦ true
    | some e ↦ not (f.lt e.time cfg.max_time)
  ]

  -- defaultLimit; the number of steps so far is the first argument of the limit.
  unfoldable pub default_limit : Config f.Time → Option (ℕ → World V R f.Time P → Bool)
  default_limit cfg = elim cfg.mode [
    | mode_tick ↦ if ltb 0 cfg.max_ticks then some (λ steps w. leb cfg.max_ticks steps) else none
    | mode_event ↦
        if f.lt f.zero_time cfg.max_time then some (λ steps w. past_max_time cfg w) else none
  ]
