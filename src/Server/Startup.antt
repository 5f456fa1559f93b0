-- ===== src/Server/Startup.antt =====
-- server.go, the start-up: the input processor and the remote client are set by goroutines of their
-- own, or one of these reports an error. Each call holds `smu`, so it is one step.
use reclient.Prelude.{
  ℕ, ◌+◌, Bool, true, false, ◌&&◌, ◌||◌, String, Option, none, some, List, [], ◌∷◌, ◌++◌, is_some,
  if◌then◌else◌,
}
use reclient.Prelude.Sort.Order.{count_if}

-- The fields that start-up is about. A cleanup function is known by a number.
pub record Startup : Type 0 where
  pub input_processor : Bool
  pub re_client : Bool
  pub start_err : Option String
  pub started : Bool
  pub cleanup_fns : List ℕ
  pub cleaned_up : List ℕ

-- Init
abbrev pub not_started : Startup
not_started = record {
  input_processor = false;
  re_client = false;
  start_err = none;
  started = false;
  cleanup_fns = [];
  cleaned_up = [];
}

-- maybeUnblockStartup
unfoldable pub maybe_unblock_startup : Startup → Startup
maybe_unblock_startup s =
    if s.started
    then s
    else if is_some s.start_err || (s.input_processor && s.re_client)
    then record s { started = true }
    else s

-- what goroutines of start-up call, with the cleanup function or the error
pub data StartupCall : Type 0 where
  set_input_processor set_re_client : ℕ → StartupCall
  set_startup_err : String → StartupCall

unfoldable pub set_cleanup : Startup → Startup → ℕ → Option String → Startup
set_cleanup s t cleanup (some e) = record s { cleaned_up = s.cleaned_up ++ cleanup ∷ [] }
set_cleanup s t cleanup none =
    maybe_unblock_startup (record t { cleanup_fns = t.cleanup_fns ++ cleanup ∷ [] })

unfoldable pub set_err : Startup → String → Option String → Startup
set_err s e (some first) = s
set_err s e none = maybe_unblock_startup (record s { start_err = some e })

-- SetInputProcessor, SetREClient and SetStartupErr
unfoldable pub startup_call : Startup → StartupCall → Startup
startup_call s (set_input_processor cleanup) =
    set_cleanup s (record s { input_processor = true }) cleanup s.start_err
startup_call s (set_re_client cleanup) =
    set_cleanup s (record s { re_client = true }) cleanup s.start_err
startup_call s (set_startup_err e) = set_err s e s.start_err

unfoldable pub startup_calls : Startup → List StartupCall → Startup
startup_calls s [] = s
startup_calls s (x ∷ xs) = startup_calls (startup_call s x) xs

-- waitForStarted, where it does not time out: `none` while it waits
unfoldable pub wait_for_started : Startup → Option (Option String)
wait_for_started s = if s.started then some s.start_err else none

-- The first error of a sequence of calls.
abbrev pub first_error : List StartupCall → Option String
first_error [] = none
first_error (set_startup_err e ∷ xs) = some e
first_error (set_input_processor c ∷ xs) = first_error xs
first_error (set_re_client c ∷ xs) = first_error xs

-- How many cleanup functions of a kind the calls bring.
abbrev pub cleanups_of : (ℕ → Bool) → List StartupCall → ℕ
cleanups_of q [] = 0
cleanups_of q (set_startup_err e ∷ xs) = cleanups_of q xs
cleanups_of q (set_input_processor c ∷ xs) = count_if q (c ∷ []) + cleanups_of q xs
cleanups_of q (set_re_client c ∷ xs) = count_if q (c ∷ []) + cleanups_of q xs

abbrev pub ready : Startup → Bool
ready s = is_some s.start_err || (s.input_processor && s.re_client)

abbrev pub or_first : Option String → Option String → Option String
or_first (some e) o = some e
or_first none o = o
