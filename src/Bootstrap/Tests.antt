-- ===== src/Bootstrap/Tests.antt =====
-- A registration of cdc/bootstrap.py that sees a 404 first and then a connector that runs.
use local_data_platform.Prelude.{◌↔◌, ◌≡◌, refl, some, List, [], ◌∷◌}
use local_data_platform.Bootstrap.{
  connector_status, http_error, StatusRound, running, register_connector,
}
use local_data_platform.Bootstrap.Registered.{Succeeds, register_connector_iff}

abbrev rounds : List StatusRound
rounds =
    record { monotonic = 2; status = http_error 404 }
    ∷ record { monotonic = 4; status = connector_status (some "RUNNING") (some "RUNNING" ∷ []) }
    ∷ []

registered : register_connector 180 rounds ≡ running
unfolding register_connector
registered = refl

register_connector_iff_example : (register_connector 180 rounds ≡ running) ↔ Succeeds 180 rounds
register_connector_iff_example = register_connector_iff 180 rounds
