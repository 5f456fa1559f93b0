-- ===== src/DepsScanner/Service.antt =====
-- depsscannerclient.go: the client of the dependency scanner: starting, stopping, restarting and
-- checking the service, and the processing of the inputs of an action. How the service and the
-- system answer is a parameter.
use reclient.Prelude.{
  ℕ, zero, suc, ◌+◌, Bool, true, false, String, Option, none, some, List, [], ◌∷◌, ◌++◌, str_eq,
  if◌then◌else◌, ltb, ◌==◌,
}
use reclient.Prelude.Maps.{Map, insert, string_eq}
use reclient.Prelude.FilePath
use reclient.DepsScanner.{add_environment, uds_file}

pub data ServiceEffect : Type 0 where
  shutdown_sent terminated : ServiceEffect
  socket_removed : String → ServiceEffect
  started : List String → Map String String → ServiceEffect

-- the fields of DepsScannerClient; the client of the service is there or nil, and times are numbers
pub record Client : Type 0 where
  pub address : String
  pub executable : String
  pub cache_dir : String
  pub cache_file_max_mb : String
  pub use_deps_cache : Bool
  pub log_dir : String
  pub has_client : Bool
  pub service_restarted : ℕ
  pub capabilities : Option String
  pub effects : List ServiceEffect

abbrev pub did_effect : Client → ServiceEffect → Client
did_effect c e = record c { effects = c.effects ++ e ∷ [] }

-- How the outside answers while the service is stopped and started: whether its process has ended
-- within the first wait and within the second, its environment, whether it starts, the answers to
-- Capabilities (`none` for an error) with whether the context is done then, and the time after.
pub record World : Type 0 where
  pub ended : ℕ → Bool
  pub environ : List String
  pub lookup_env : String → Option String
  pub start_err : Option String
  pub answer : ℕ → Option String
  pub context_done : ℕ → Bool
  pub now : ℕ

pub data ServiceError : Type 0 where
  not_managed not_stopped no_connection bad_environment : ServiceError
  not_started : String → ServiceError

-- the two waits of stopService
unfoldable pub wait_end : World → (fuel : ℕ) → ℕ → Client → Option ServiceError × Client
wait_end w zero i c = (some not_stopped, c)
wait_end w (suc fuel) i c =
    let rest = wait_end w fuel (i + 1) (if i == 0 then did_effect c terminated else c) in
    if w.ended i then (none, c) else rest

-- stopService
unfoldable pub stop_service : World → Client → Option ServiceError × Client
stop_service w c =
    if str_eq c.executable ""
    then (none, c)
    else wait_end w 2 0
        (if c.has_client then did_effect c shutdown_sent else did_effect c terminated)

-- the arguments before those of the environment
unfoldable pub service_args : Client → List String
service_args c =
    c.executable
    ∷ "--server_address"
    ∷ c.address
    ∷ "--cache_dir"
    ∷ c.cache_dir
    ∷ "--deps_cache_max_mb"
    ∷ c.cache_file_max_mb
    ∷ (if c.use_deps_cache then "--enable_deps_cache" else "--noenable_deps_cache")
    ∷ []

abbrev pub with_log_dir : String → Map String String → Map String String
with_log_dir dir vars = if str_eq dir "" then vars else insert "GLOG_log_dir" dir vars

abbrev pub socket_gone : Option String → Client → Client
socket_gone none c = c
socket_gone (some path) c = did_effect c (socket_removed path)

abbrev pub start_error : Option String → Option ServiceError
start_error none = none
start_error (some e) = some (not_started e)

unfoldable pub launch :
    World → Client → Option (List String × Map String String) → Option ServiceError × Client
launch w c none = (some bad_environment, c)
launch w c (some (args, vars)) =
    let c' =
      did_effect (socket_gone (uds_file c.address) c)
        (started args (with_log_dir c.log_dir vars)) in
    (start_error w.start_err, c')

-- startService
unfoldable pub start_service : World → String → Client → Option ServiceError × Client
start_service w executable c =
    let c' : Client = record c { executable = executable } in
    launch w c' (add_environment w.lookup_env w.environ (service_args c', []))

abbrev pub verified :
    Option String → Option ServiceError × Client → Client → Option ServiceError × Client
verified none rest c = rest
verified (some caps) rest c = (none, record c { capabilities = some caps })

-- the attempts of verifyService
unfoldable pub verify_from : World → (fuel : ℕ) → ℕ → Client → Option ServiceError × Client
verify_from w zero i c = (some no_connection, c)
verify_from w (suc fuel) i c =
    let rest = verify_from w fuel (i + 1) c in
    let asked = verified (w.answer i) rest c in if w.context_done i then rest else asked

-- verifyService
unfoldable pub verify_service : World → Client → Option ServiceError × Client
verify_service w c = verify_from w 10 0 c

abbrev pub after_verify : World → Option ServiceError × Client → Option ServiceError × Client
after_verify w (none, c) = (none, record c { service_restarted = w.now })
after_verify w (some e, c) = (some e, c)

abbrev pub after_start : World → Option ServiceError × Client → Option ServiceError × Client
after_start w (some e, c) = (some e, c)
after_start w (none, c) = after_verify w (verify_service w c)

abbrev pub after_stop : World → String → Option ServiceError × Client → Option ServiceError × Client
after_stop w executable (some e, c) = (some e, c)
after_stop w executable (none, c) = after_start w (start_service w executable c)

-- restartService, of a call that began at time t
unfoldable pub restart_service : World → ℕ → String → Client → Option ServiceError × Client
restart_service w t executable c =
    if str_eq executable ""
    then (some not_managed, c)
    else if ltb t c.service_restarted
    then (none, c)
    else after_stop w executable (stop_service w c)

-- what ProcessInputs comes to know first: the end of its context and whether by a deadline, an
-- error of the call with whether it is `Unavailable` and how the context has ended then, or the
-- response
pub data ScanEvent : Type 0 where
  context_ended : Bool → ScanEvent
  call_failed : Bool → Option Bool → ScanEvent
  responded : String → List String → Bool → ScanEvent

pub data Failure : Type 0 where
  cancelled timed_out lost_and_restarted unexpected_error : Failure
  restart_failed lost_and_failed : ServiceError → Failure
  processing_failed : String → Failure

pub data Reply : Type 0 where
  dependencies : List String → Bool → Reply
  failed : Failure → Reply

unfoldable pub absolute_deps : String → List String → List String
absolute_deps directory [] = []
absolute_deps directory (p ∷ ps) =
    let rest = absolute_deps directory ps in
    if str_eq p ""
    then rest
    else (if FilePath.is_abs p then p else FilePath.join (directory ∷ p ∷ [])) ∷ rest

abbrev pub after_deadline : Option ServiceError × Client → Reply × Client
after_deadline (none, c) = (failed timed_out, c)
after_deadline (some e, c) = (failed (restart_failed e), c)

abbrev pub after_loss : Option ServiceError × Client → Reply × Client
after_loss (none, c) = (failed lost_and_restarted, c)
after_loss (some e, c) = (failed (lost_and_failed e), c)

-- ProcessInputs, called at time t
unfoldable pub process_inputs : World → ℕ → String → ScanEvent → Client → Reply × Client
process_inputs w t directory (context_ended false) c = (failed cancelled, c)
process_inputs w t directory (context_ended true) c =
    after_deadline (restart_service w t c.executable c)
process_inputs w t directory (call_failed false ended) c = (failed unexpected_error, c)
process_inputs w t directory (call_failed true (some false)) c = (failed cancelled, c)
process_inputs w t directory (call_failed true (some true)) c = (failed unexpected_error, c)
process_inputs w t directory (call_failed true none) c =
    after_loss (restart_service w t c.executable c)
process_inputs w t directory (responded error deps used_cache) c =
    if str_eq error ""
    then (dependencies (absolute_deps directory deps) used_cache, c)
    else (failed (processing_failed error), c)

-- Close
unfoldable pub close : World → Client → Client
close w c = if c.has_client then record (stop_service w c).1 { has_client = false } else c
