-- ===== src/Scheduler.antt =====
-- internal/adapters/scheduler: the timers that drive the two scaling use cases. A run is the sequence
-- in which the timers fire. An error of a tick is logged and the next tick goes on; a nil dereference
-- takes the process down.
pub mod Effects
pub mod Scaling
pub mod Jobs
pub mod Ticks
pub mod Guarantees
pub mod Isolation
pub mod Completion
use legacy_messenger_ecs_con.Base.{String, List, [], ◌∷◌}
use legacy_messenger_ecs_con.Floats.{Float64}
use legacy_messenger_ecs_con.Exec.{Exec, pure, ignore, ◌>>=◌, ◌>>◌}
use legacy_messenger_ecs_con.System.{Services, System}
use legacy_messenger_ecs_con.AutoScaling.{evaluate_and_scale}
use legacy_messenger_ecs_con.ScaleIn.{process}

-- Which timer fires: that of session auto scaling for a service, or that of the scale-in jobs.
pub data Tick : Type 0 where
  scaling : String → Tick
  scale_in_jobs : Tick

module _ (fl : Float64) {W : Type 0} (u : Services W fl.F) where
  open fl use {F}

  -- SessionScalingScheduler.execute and the body of ScaleInScheduler.Start.
  unfoldable pub execute : Tick → Exec (System W F) (Unit {0})
  execute (scaling s) = ignore (evaluate_and_scale fl u s)
  execute scale_in_jobs = ignore (process u)

  unfoldable pub run : List Tick → Exec (System W F) (Unit {0})
  unfolding execute
  run [] = pure tt
  run (t ∷ ts) = let rest = run ts in do execute t; rest
