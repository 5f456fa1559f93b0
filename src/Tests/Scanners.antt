-- ===== src/Tests/Scanners.antt =====
-- The client of the dependency scanner at concrete inputs.
use reclient.Prelude.{
  ◌≡◌, refl, true, false, String, Option, none, some, [], ◌∷◌, str_eq, if◌then◌else◌, ltb,
}
use reclient.Labels.{join}
use reclient.Prelude.Text.{split_at_char}
use reclient.DepsScanner.{find_key_val, find_in_parts, find_split}
use reclient.DepsScanner.KeyVal.{Splits, find_key_val-Splits}
use reclient.DepsScanner.Service.{Client, World}

abbrev one_variable : String → Option String
one_variable k = if str_eq k "A=B" then some "C=D" else none

found_in_env : find_key_val "A=B=C=D" one_variable ≡ some ("A=B", "C=D")
unfolding find_key_val find_in_parts find_split split_at_char join
found_in_env = refl

find_key_val-Splits_example : Splits "A=B=C=D" ("A=B", "C=D")
find_key_val-Splits_example = find_key_val-Splits "A=B=C=D" one_variable "A=B" "C=D" found_in_env

abbrev frozen_service : Client
frozen_service = record {
  address = "127.0.0.1:1234";
  executable = "scandeps_server";
  cache_dir = "";
  cache_file_max_mb = "128";
  use_deps_cache = true;
  log_dir = "";
  has_client = true;
  service_restarted = 3;
  capabilities = none;
  effects = [];
}

-- The process ends when it is ended, and the third call answers.
abbrev slow_world : World
slow_world = record {
  ended = λ i. ltb 0 i;
  environ = "PATH=/bin" ∷ [];
  lookup_env = λ k. none;
  start_err = none;
  answer = λ i. if ltb i 2 then none else some "caching";
  context_done = λ i. false;
  now = 9;
}
