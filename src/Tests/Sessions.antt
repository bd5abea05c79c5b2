-- ===== src/Tests/Sessions.antt =====
-- The session arithmetic on the reports of a service.
use legacy_messenger_ecs_con.Base.{String, List, [], ◌∷◌}

abbrev tasks : List String
tasks = "a" ∷ "d" ∷ "b" ∷ []
