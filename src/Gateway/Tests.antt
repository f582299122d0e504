-- ===== src/Gateway/Tests.antt =====
-- Requests to spark/gateway/job_gateway.py.
use local_data_platform.Prelude.{ℕ, String, ◌≡◌, refl, true, false, List, [], ◌∷◌}
use local_data_platform.Gateway.{
  command, started, gateway_busy, answered, admit, Server, began, refused, Reachable, idle, next,
  not_found,
}
use local_data_platform.Gateway.Exclusive.{Reachable-IsExclusive}

abbrev sales : String
sales = "/jobs/iceberg-sales"

abbrev sales_command : List String
sales_command = command ("/opt/spark/jobs/iceberg_sales.py" ∷ [])

admitted : admit sales false ≡ started "iceberg-sales" sales_command
unfolding admit
admitted = refl

busy : admit sales true ≡ answered gateway_busy
unfolding admit
busy = refl

outside : admit "/scripts/x.py" false ≡ answered not_found
unfolding admit
outside = refl

abbrev at_rest : Server
at_rest = record { locked = false; running = [] }

abbrev at_work : Server
at_work = record { locked = true; running = "iceberg-sales" ∷ [] }

worked : Reachable at_work
worked =
    next (next idle (began at_rest sales "iceberg-sales" sales_command admitted))
      (refused at_work sales gateway_busy busy)

Reachable-IsExclusive_example : ◌≡◌ {A = ℕ} 1 1
Reachable-IsExclusive_example = Reachable-IsExclusive at_work worked
