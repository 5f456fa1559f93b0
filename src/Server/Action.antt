-- ===== src/Server/Action.antt =====
-- action.go: one action, and what running it locally, running it remotely, and looking it up in and
-- storing it to the remote cache does to it. The results are those of the remote execution library
-- and what it answers is a parameter, as are the input processor, the executor and the files. What
-- the action's command holds is left out; a nil pointer that is followed is a panic, `none`.
use reclient.Prelude.{
  ℕ, suc, ◌≡◌, ap, ◌∙◌, ◌||◌, arith, Bool, true, false, not, String, Option, none, some, List, [],
  ◌∷◌, ◌++◌, if◌then◌else◌,
}
use reclient.Server.Environment.{slice_to_map, all_pairs, slice_to_map-cases}
use reclient.Prelude.Int.{ℤ, pos, eqb_ℤ}

-- What is used of the library's results: the status of a result, two tests on it, and the results
-- made here. Two tests are on the error of a result: whether it is, or wraps, the error of runRemote
-- for its timeout, and whether it is that a context was cancelled. By the library's documentation exit code 0 stands for success and any other for a
-- non-zero exit, and an error of this side is neither.
pub record Results : Type 1 where
  pub Result : Type 0
  pub Status : Type 0
  pub status : Result → Status
  pub exit_code : Result → ℤ
  pub is_ok : Result → Bool
  pub is_non_zero_exit : Status → Bool
  pub from_exit_code : ℤ → Result
  pub local_error : String → Result
  pub timeout_result : Result
  pub is_reclient_timeout : Result → Bool
  pub is_cancelled : Result → Bool
  pub from_exit_code_ok : (n : ℤ) → is_ok (from_exit_code n) ≡ eqb_ℤ n (pos 0)
  pub from_exit_code_non_zero :
      (n : ℤ) → is_non_zero_exit (status (from_exit_code n)) ≡ not (eqb_ℤ n (pos 0))
  pub local_error_ok : (e : String) → is_ok (local_error e) ≡ false
  pub local_error_non_zero : (e : String) → is_non_zero_exit (status (local_error e)) ≡ false

-- what is written to an action's output
pub data Output : Type 0 where
  remote_output : Output
  local_output : ℕ → Output
  message : Output

-- What an action does outside: the local runs, the cache entries of its outputs that are cleared,
-- the update of the remote cache, downloads, and the files that compare mode puts aside and back.
pub data Effect : Type 0 where
  ran_locally : ℕ → Effect
  executed_remotely downloaded moved_from_temp outputs_cleared cache_updated : Effect
  virtual_inputs_downloaded stashed outputs_removed restored in_outs_cleared : Effect

module _ (R : Results) where
  pub record RemoteMetadata : Type 0 where
    pub result : Option R.Result
    pub cache_hit : Bool

  -- The fields of an action and of its log record.
  pub record Action : Type 0 where
    pub res : Option R.Result
    pub oe : List Output
    pub fallback_oe : List Output
    pub fallback_exit_code : ℤ
    pub fallback_result_status : Option R.Status
    pub exec_context : Bool
    pub download_outputs : Bool
    pub remote_metadata : Option RemoteMetadata
    pub local_result : Option R.Result
    pub executed_locally : Bool
    pub valid_cache_hit : Bool
    pub updated_cache : Bool
    pub local_runs : ℕ
    pub effects : List Effect

  -- What an action asks for.
  pub record Options : Type 0 where
    pub accept_cached : Bool
    pub do_not_cache : Bool
    pub compare : Bool
    pub atomic_downloads : Bool
    pub download_regex : Bool

  -- How what is outside answers while the action runs: errors where there are any, the cached and
  -- the executed result, and the exit code and the error of each local run; whether the context of
  -- a remote run was ended by its timeout; and, of the request, whether the command has an input
  -- specification and the environment for local runs.
  pub record World : Type 0 where
    pub process_inputs : Option (String × Bool)
    pub new_context : Option String
    pub cached : Option R.Result
    pub executed : R.Result
    pub flattened_outputs : Bool
    pub download_err : Option R.Result
    pub tmp_dir : Option String
    pub move_outputs : Option String
    pub deps_valid : Bool
    pub deps_file : Option String
    pub update_fails : Bool
    pub local : ℕ → ℤ × Option String
    pub timed_out : Bool
    pub has_input_spec : Bool
    pub environment : List String

  abbrev pub did : Action → Effect → Action
  did a e = record a { effects = a.effects ++ e ∷ [] }

  -- the result of runLocal
  unfoldable pub local_result_of : ℤ × Option String → R.Result
  local_result_of (code, none) = R.from_exit_code code
  local_result_of (code, some e) =
      if eqb_ℤ code (pos 0) then R.local_error e else R.from_exit_code code

  -- an action after its local run
  abbrev pub after_local : World → Action → Action
  after_local w a = record a {
    res = some (local_result_of (w.local a.local_runs));
    oe = a.oe ++ local_output a.local_runs ∷ [];
    local_result = some (local_result_of (w.local a.local_runs));
    executed_locally = true;
    local_runs = suc a.local_runs;
    effects = a.effects ++ ran_locally a.local_runs ∷ [];
  }

  -- runLocal, which panics where sliceToMap does
  unfoldable pub run_local : World → Action → Option Action
  run_local w a =
      if w.has_input_spec
      then elim (slice_to_map b'=' w.environment) [
        | none ↦ none
        | some env ↦ some (after_local w a)
      ]
      else some (after_local w a)

  -- Local runs do not panic: each entry of the environment that they get has an equals sign.
  abbrev pub can_run : World → Bool
  can_run w = not w.has_input_spec || all_pairs b'=' w.environment

  pub run_local-cases :
      (w : World) (a : Action)
      → run_local w a ≡ (if can_run w then some (after_local w a) else none)
  unfolding run_local
  run_local-cases w a = ground (arith, slice_to_map-cases b'=' w.environment (after_local w a))

  pub run_local-some :
      (w : World) (a : Action) → can_run w ≡ true → run_local w a ≡ some (after_local w a)
  run_local-some w a can =
      run_local-cases w a ∙ ap (λ b. if b then some (after_local w a) else none) can

  -- The deferred function of runRemote.
  abbrev pub with_remote : Action → R.Result → Action
  with_remote a r = record a {
    res = some r;
    remote_metadata = some (record { result = some r; cache_hit = false });
  }

  unfoldable pub moved : Options → World → Action → R.Result → Option String → Action
  moved o w a r none = with_remote (did a moved_from_temp) r
  moved o w a r (some e) = with_remote a (R.local_error e)

  -- DownloadSpecifiedOutputs and what follows
  unfoldable pub downloaded_outputs : Options → World → Action → R.Result → Option R.Result → Action
  downloaded_outputs o w a r (some failed) = with_remote a failed
  downloaded_outputs o w a r none =
      if o.atomic_downloads
      then moved o w (did a downloaded) r w.move_outputs
      else with_remote (did a downloaded) r

  -- from the result of the execution context on
  unfoldable pub remote_result : Options → World → Action → R.Result → Action
  remote_result o w a r =
      if R.is_ok r
      then (if w.flattened_outputs
          then downloaded_outputs o w a r w.download_err
          else with_remote a r)
      else with_remote a r

  unfoldable pub executed_or : Options → World → Action → Option R.Result → Action
  executed_or o w a (some r) = remote_result o w a r
  executed_or o w a none = remote_result o w (did a executed_remotely) w.executed

  unfoldable pub in_context : Options → World → Action → Option String → Action
  in_context o w a (some e) = with_remote a (R.local_error e)
  in_context o w a none = executed_or o w (record a { oe = a.oe ++ remote_output ∷ [] }) w.cached

  -- runRemote of an action
  unfoldable pub run_remotely : Options → World → Action → Action
  run_remotely o w a =
      if o.atomic_downloads
      then elim w.tmp_dir [
        | some e ↦ record a { res = some (R.local_error e) }
        | none ↦ in_context o w a w.new_context
      ]
      else in_context o w a w.new_context

  -- createExecContext
  unfoldable pub create_exec_context : World → Action → Option String × Action
  create_exec_context w a = if a.exec_context then (none, a) else elim w.new_context [
    | some e ↦ (some e, a)
    | none ↦ (none, record a { exec_context = true })
  ]

  unfoldable pub cached_result : World → Action → Option R.Result → Action
  cached_result w a none = record a {
    res = none;
    remote_metadata = some (record { result = none; cache_hit = false });
  }
  cached_result w a (some r) =
      if R.is_ok r
      then if w.deps_valid
        then did
            (record a {
              res = some r;
              remote_metadata = some (record { result = some r; cache_hit = true });
              valid_cache_hit = true;
            })
            downloaded
        else record a {
          res = some (R.local_error "failed deps validation");
          remote_metadata = some (record { result = some r; cache_hit = true });
        }
      else record a {
        res = some r;
        remote_metadata = some (record { result = none; cache_hit = false });
      }

  -- getCachedResult
  unfoldable pub get_cached_result : World → Action → Action
  get_cached_result w a = if a.exec_context then cached_result w a w.cached else a

  -- the remote metadata after the cache is updated: the new one, with these fields of the old one
  abbrev pub kept_metadata : Option RemoteMetadata → RemoteMetadata
  kept_metadata none = record { result = none; cache_hit = false }
  kept_metadata (some rm) = record { result = rm.result; cache_hit = rm.cache_hit }

  -- cacheLocal from the deps file on
  unfoldable pub update_cache : World → Action → Option String → Action
  update_cache w a (some e) = a
  update_cache w a none =
      if w.update_fails
      then did (did a outputs_cleared) cache_updated
      else record (did (did a outputs_cleared) cache_updated) {
        remote_metadata = some (kept_metadata a.remote_metadata);
        updated_cache = true;
      }

  -- cacheLocal
  unfoldable pub cache_local : Options → World → Action → R.Result → Action
  cache_local o w a r =
      if a.exec_context
      then (if not (R.is_ok r)
          then a
          else if o.do_not_cache
          then a
          else update_cache w a w.deps_file)
      else a
