-- ===== src/Server/Requests.antt =====
-- server.go, RunCommand up to the run of the action: which requests are refused, in what order, and
-- with how many reruns an action is started. The validation of a command is the library's.
use reclient.Prelude.{ℕ, ◌+◌, Bool, ◌&&◌, String, Option, none, some, List, ltb, leb, if◌then◌else◌}
use reclient.Prelude.Int.{ℤ, pos, pos_part, neg_part, leb_ℤ, eqb_ℤ}
use reclient.Server.Environment.{slice_to_map}
use reclient.Server.Startup.{Startup, wait_for_started}

-- What RunCommand reads of a request.
pub record Request : Type 0 where
  pub command : Bool
  pub log_environment : Bool
  pub environment : List String
  pub validate : Option String
  pub compare_with_local : Bool
  pub num_local_reruns : ℤ
  pub num_remote_reruns : ℤ
  pub num_retries_if_mismatched : ℤ
  pub reclient_timeout : ℤ

-- The server's side of it. Whoever waits for the start-up when the context ends gets an error.
pub record Admission : Type 0 where
  pub draining : Bool
  pub startup : Startup
  pub num_active_actions : ℕ
  pub max_threads : ℕ

pub data Refusal : Type 0 where
  draining_server deadline_exceeded no_command too_few_reruns no_timeout too_many_actions : Refusal
  start_failed invalid_command : String → Refusal

-- An action that is started, with its local and remote reruns and its timeout.
pub data Admitted : Type 0 where
  refused_with : Refusal → Admitted
  admitted : ℤ → ℤ → ℤ → Admitted
  panicked : Admitted

-- `numRemoteRerun`
unfoldable pub remote_reruns : Request → ℤ
remote_reruns q =
    if eqb_ℤ q.num_remote_reruns (pos 0) then q.num_retries_if_mismatched else q.num_remote_reruns

-- `m + n < 2`
unfoldable pub fewer_than_two : ℤ → ℤ → Bool
fewer_than_two m n = ltb (pos_part m + pos_part n) (2 + (neg_part m + neg_part n))

-- from the reruns on
unfoldable pub admit_options : Admission → Request → Admitted
admit_options s q =
    if q.compare_with_local && fewer_than_two q.num_local_reruns (remote_reruns q)
    then refused_with too_few_reruns
    else if leb_ℤ q.reclient_timeout (pos 0)
    then refused_with no_timeout
    else if leb s.max_threads s.num_active_actions
    then refused_with too_many_actions
    else admitted q.num_local_reruns (remote_reruns q) q.reclient_timeout

-- The environment is logged as a map, where the request asks for it.
unfoldable pub admit_logged : Admission → Request → Admitted
admit_logged s q =
    if q.log_environment
    then elim (slice_to_map b'=' q.environment) [ none ↦ panicked | some env ↦ admit_options s q ]
    else admit_options s q

unfoldable pub admit_valid : Admission → Request → Option String → Admitted
admit_valid s q (some e) = refused_with (invalid_command e)
admit_valid s q none = admit_logged s q

unfoldable pub admit_started : Admission → Request → Option (Option String) → Admitted
admit_started s q none = refused_with deadline_exceeded
admit_started s q (some (some e)) = refused_with (start_failed e)
admit_started s q (some none) =
    if q.command then admit_valid s q q.validate else refused_with no_command

-- RunCommand up to the run
unfoldable pub admit : Admission → Request → Admitted
admit s q =
    if s.draining
    then refused_with draining_server
    else admit_started s q (wait_for_started s.startup)
