-- ===== src/DepsScanner.antt =====
-- internal/pkg/cppdependencyscanner/depsscannerclient/depsscannerclient.go: the address and the
-- command line of the dependency scanner that reproxy starts, and which errors are tried again. The
-- random number of a socket, the system's functions for addresses and ports and the environment are
-- parameters.
pub mod KeyVal
pub mod Service
pub mod Connect
pub mod Stopping
pub mod Lifecycle
use Prim.Native.String.{◌++◌ as ◌<>◌, len}
use reclient.Prelude.{
  ℕ, zero, suc, ◌+◌, ◌≡◌, Bool, true, false, ◌&&◌, ◌||◌, String, Option, none, some, List, [], ◌∷◌,
  ◌++◌, str_eq, if◌then◌else◌, length, take, drop, ltb, leb, ◌>>=◌, ◌==◌,
}
use reclient.Prelude.Maps.{Map, insert, string_eq}
use reclient.Prelude.Text.{has_prefix, trim_prefix, split_at_char}
use reclient.Prelude.FilePath
use reclient.Labels.{join}

-- the codes of grpc
pub data Code : Type 0 where
  ok canceled unknown invalid_argument deadline_exceeded not_found already_exists : Code
  permission_denied resource_exhausted failed_precondition aborted out_of_range : Code
  unimplemented internal unavailable data_loss unauthenticated : Code

pub data ScanError : Type 0 where
  context_deadline_exceeded other_error : ScanError
  status_error : Code → ScanError

-- shouldRetry
unfoldable pub should_retry : ScanError → Bool
should_retry context_deadline_exceeded = true
should_retry other_error = false
should_retry (status_error canceled) = true
should_retry (status_error unknown) = true
should_retry (status_error deadline_exceeded) = true
should_retry (status_error unavailable) = true
should_retry (status_error resource_exhausted) = true
should_retry (status_error c) = false

-- What buildAddress asks of the system: whether sockets are supported, the system, the directory
-- for temporary files, a random number in decimal, filepath.Split, strings.Contains and
-- strings.Replace of "reproxy" by "depscan", net.SplitHostPort, and a free port in decimal.
pub record System : Type 0 where
  pub supports_uds : Bool
  pub is_windows : Bool
  pub temp_dir : String
  pub random : String
  pub split : String → String × String
  pub names_reproxy : String → Bool
  pub replace_reproxy : String → String
  pub split_host : String → Option String
  pub open_port : Option String

abbrev pub is_unix_address : String → Bool
is_unix_address = λ a. has_prefix a "unix://"

abbrev pub is_pipe_address : String → Bool
is_pipe_address = λ a. has_prefix a "pipe://"

abbrev beside : System → String × String → String
beside sys (dir, name) = FilePath.join (dir ∷ ("ds_" <> name) ∷ [])

-- the socket's path, empty where there is none
unfoldable pub socket_file_path : System → String → String
socket_file_path sys address =
    if is_unix_address address
    then beside sys (sys.split (trim_prefix address "unix://"))
    else if is_pipe_address address
    then FilePath.join (sys.temp_dir ∷ ("ds_" <> sys.random <> ".sock") ∷ [])
    else ""

-- a TCP address at a free port
unfoldable pub tcp_address : System → String → Option String
tcp_address sys address = do
  base ←
      sys.split_host
        (if is_unix_address address || is_pipe_address address then "127.0.0.1:0" else address)
  port ← sys.open_port
  some (base <> ":" <> port)

unfoldable pub socket_address : System → String → String → Option String
socket_address sys address path =
    if ltb 0 (len path) && leb (len path) 108
    then some (if sys.is_windows then "unix:" <> path else "unix://" <> path)
    else tcp_address sys address

-- buildAddress
unfoldable pub build_address : System → String → Option String
build_address sys address =
    if sys.supports_uds
    then if is_unix_address address && sys.names_reproxy address
      then some (sys.replace_reproxy address)
      else socket_address sys address (socket_file_path sys address)
    else tcp_address sys address

-- the file of the socket, as removeUDSFile takes it off its address
unfoldable pub uds_file : String → Option String
uds_file addr =
    if has_prefix addr "unix"
    then some (
        if has_prefix addr "unix://"
        then trim_prefix addr "unix://"
        else if has_prefix addr "unix:"
        then trim_prefix addr "unix:"
        else addr)
    else none

abbrev pub equals_sign : ℕ
equals_sign = b'='

abbrev pub matches : String → Option String → Bool
matches val none = false
matches val (some v) = str_eq v val

-- the loop of findKeyVal, from i parts on
unfoldable pub find_split :
    (String → Option String) → List String → (fuel : ℕ) → ℕ → Option (String × String)
find_split lookup_env parts zero i = none
find_split lookup_env parts (suc fuel) i =
    let rest = find_split lookup_env parts fuel (i + 1) in
    let key = join "=" (take i parts) in
    let val = join "=" (drop i parts) in
    if matches val (lookup_env key) then some (key, val) else rest

-- findKeyVal past the split
unfoldable pub find_in_parts : (String → Option String) → List String → Option (String × String)
find_in_parts lookup_env (k ∷ (v ∷ [])) = some (k, v)
find_in_parts lookup_env parts = find_split lookup_env parts (length parts) 1

-- findKeyVal
unfoldable pub find_key_val : String → (String → Option String) → Option (String × String)
find_key_val env lookup_env = find_in_parts lookup_env (split_at_char equals_sign env)

-- one entry of the environment, into the arguments and the variables
unfoldable pub add_env :
    List String × Map String String → String × String → List String × Map String String
add_env (args, vars) (key, val) =
    if str_eq key "FLAGS_experimental_segfault"
    then (args ++ "--experimental_segfault" ∷ val ∷ [], vars)
    else if str_eq key "FLAGS_experimental_deadlock"
    then (args ++ "--experimental_deadlock" ∷ val ∷ [], vars)
    else (args, insert key val vars)

unfoldable pub add_environment :
    (String → Option String)
    → List String
    → List String × Map String String
    → Option (List String × Map String String)
add_environment lookup_env [] acc = some acc
add_environment lookup_env (e ∷ es) acc = do
  kv ← find_key_val e lookup_env
  add_environment lookup_env es (add_env acc kv)
