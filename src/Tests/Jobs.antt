-- ===== src/Tests/Jobs.antt =====
-- The table of jobs: a job that is completed, and a table with a job that drains.
use legacy_messenger_ecs_con.Base.{◌≡◌, ◌↔◌, ◌≢◌, List, [], ◌∷◌, Has, arith}
use legacy_messenger_ecs_con.Base.Results.{ok}
use legacy_messenger_ecs_con.Domain.{requested, ScaleInJob}
use legacy_messenger_ecs_con.Coordinator.{new_scale_in_coordinator, request, get_active_jobs}
use legacy_messenger_ecs_con.Coordinator.Entries.{Call, requests, drains, applies, completes}
use legacy_messenger_ecs_con.Coordinator.Graph.{after}
use legacy_messenger_ecs_con.Coordinator.Invariant.{Inv, after-Inv}
use legacy_messenger_ecs_con.Coordinator.Active.{request_iff}
use legacy_messenger_ecs_con.Tests.Sample.{job}

abbrev asked : ScaleInJob
asked = job requested "" 0 0

abbrev starting : List Call
starting = drains "chat" "b" ("a" ∷ "c" ∷ []) 20 ∷ requests asked 10 ∷ []

abbrev life : List Call
life = completes "chat" 40 ∷ applies "chat" 30 ∷ starting

table-Inv : Inv (after new_scale_in_coordinator starting)
table-Inv = after-Inv starting (omega arith, (omega arith, tt))

request_iff_example : ((request (after new_scale_in_coordinator starting) asked 30).0 ≡ ok tt) ↔ (
    (old : ScaleInJob)
    → Has old (get_active_jobs (after new_scale_in_coordinator starting))
    → old.service_name ≢ "chat")
request_iff_example = request_iff (after new_scale_in_coordinator starting) asked 30 table-Inv
