-- ===== src/Bootstrap.antt =====
-- The waiting loops of cdc/bootstrap.py: `wait_for_connect` and `register_connector`. What the REST
-- API answers and what the clock shows come from the environment, as one record for each round; a
-- list of rounds is one run of the loop.
pub mod Registered
pub mod Catalog
pub mod Deploy
mod Tests
use local_data_platform.Prelude.{
  ℕ, String, Bool, true, false, not, ◌&&◌, Option, none, some, List, [], ◌∷◌, ◌==◌, nat_eq,
  string_eq, ltb, any, every, if◌then◌else◌,
}

-- The answer to GET /connector-plugins: the classes, or the text of an exception that is caught.
pub data Plugins : Type 0 where
  listed : List String → Plugins
  unreachable : String → Plugins

pub record PluginRound : Type 0 where
  pub monotonic : ℕ
  pub plugins : Plugins

pub data Wait : Type 0 where
  ready : Wait
  timed_out : String → Wait
  -- the rounds given are over, and the loop goes on
  waiting : Wait

abbrev pub has_postgres : List String → Bool
has_postgres classes = any (λ c. c == "io.debezium.connector.postgresql.PostgresConnector") classes

-- A round's `last_error`, or nothing when the plug-in is there.
abbrev pub plugin_error : Plugins → Option String
plugin_error (listed classes) =
    if has_postgres classes then none else some "PostgreSQL connector plug-in not listed"
plugin_error (unreachable error) = some error

unfoldable pub wait_for_connect : ℕ → String → List PluginRound → Wait
wait_for_connect deadline last_error [] = waiting
wait_for_connect deadline last_error (r ∷ rs) =
    if ltb r.monotonic deadline
    then (elim (plugin_error r.plugins) [
      | none ↦ ready
      | some error ↦ wait_for_connect deadline error rs
    ])
    else timed_out last_error

-- The answer to GET /connectors/<name>/status.
pub data Status : Type 0 where
  connector_status : Option String → List (Option String) → Status
  http_error : ℕ → Status

pub record StatusRound : Type 0 where
  pub monotonic : ℕ
  pub status : Status

pub data Registration : Type 0 where
  running : Registration
  not_running : Registration
  raised : ℕ → Registration
  still_waiting : Registration

abbrev pub has_state : String → Option String → Bool
has_state name none = false
has_state name (some state) = state == name

abbrev pub some_task : List (Option String) → Bool
some_task [] = false
some_task (t ∷ ts) = true

-- `connector_running and tasks_running`
abbrev pub is_running : Option String → List (Option String) → Bool
is_running connector tasks =
    has_state "RUNNING" connector && some_task tasks && every (has_state "RUNNING") tasks

pub data Verdict : Type 0 where
  returns breaks continues : Verdict
  raises : ℕ → Verdict

abbrev pub judge : Status → Verdict
judge (http_error code) = if code == 404 then continues else raises code
judge (connector_status connector tasks) =
    if is_running connector tasks
    then returns
    else if any (has_state "FAILED") tasks
    then breaks
    else continues

abbrev pub settle : Verdict → Registration → Registration
settle returns rest = running
settle breaks rest = not_running
settle continues rest = rest
settle (raises code) rest = raised code

-- The loop of `register_connector`, after the PUT of the configuration.
unfoldable pub register_connector : ℕ → List StatusRound → Registration
register_connector deadline [] = still_waiting
register_connector deadline (r ∷ rs) =
    let rest = register_connector deadline rs in
    if ltb r.monotonic deadline then settle (judge r.status) rest else not_running
