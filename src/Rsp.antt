-- ===== src/Rsp.antt =====
-- internal/pkg/rsp/rsp.go: response files, of which white space is read as in ASCII. What a file
-- holds is a parameter.
pub mod Words
use Prim.Native.Char.{code}
use Prim.Native.String.{String}
use reclient.Prelude.{
  ℕ, zero, suc, Bool, true, false, ◌||◌, ◌&&◌, Option, none, some, List, [], ◌∷◌, map, str_eq,
  if◌then◌else◌, length, ◌==◌, leb,
}
use reclient.Prelude.Text.{onto_first}
use reclient.Prelude.Result.{Result, ok, err, panic, ◌>>=◌}
use reclient.Args.{Scanner, FlagResult, no_result, has_next, read_next_flag}

abbrev pub is_space : ℕ → Bool
is_space c = (leb 9 c && leb c 13) || (c == 32)

unfoldable pub split_spaces : String → List String
split_spaces String.[] = "" ∷ []
split_spaces (String.◌∷◌ c s) =
    let parts = split_spaces s in if is_space (code c) then "" ∷ parts else onto_first c parts

unfoldable pub non_empty : List String → List String
non_empty [] = []
non_empty (w ∷ ws) = let rest = non_empty ws in if str_eq w "" then rest else w ∷ rest

-- strings.Fields
unfoldable pub fields : String → List String
fields s = non_empty (split_spaces s)

abbrev pub is_quote : ℕ → Bool
is_quote c = (c == 39) || (c == 34)

unfoldable pub trim_left : String → String
trim_left String.[] = ""
trim_left (String.◌∷◌ c s) =
    let rest = trim_left s in if is_quote (code c) then rest else String.◌∷◌ c s

unfoldable pub trim_right : String → String
trim_right String.[] = ""
trim_right (String.◌∷◌ c s) =
    let rest = trim_right s in if str_eq rest "" && is_quote (code c) then "" else String.◌∷◌ c rest

-- strings.Trim of quotes
unfoldable pub trim_quotes : String → String
trim_quotes s = trim_right (trim_left s)

-- what reading a file answers
pub data Read : Type 0 where
  content : String → Read
  not_exist read_failed : Read

pub data RspError : Type 0 where
  no_such_file unreadable : RspError

-- Parse
unfoldable pub parse : Read → Result RspError (List String)
parse (content s) = ok (map trim_quotes (fields s))
parse not_exist = err no_such_file
parse read_failed = err unreadable

abbrev pub rsp_scanner : Scanner → List String → Scanner
rsp_scanner template args = record template {
  args = args;
  prev_result = no_result;
  cur_result = no_result;
}

module _ {A : Type 0} {E : Type 0} where
  -- a loop over `HasNext`, with a step that reads at least one argument; the fuel is their number
  unfoldable pub scan_all :
      (Scanner → A → Result E (A × Scanner)) → (fuel : ℕ) → Scanner → A → Result E A
  scan_all step zero s a = if has_next s then panic else ok a
  scan_all step (suc fuel) s a =
      let rest = step s a >>= λ r. scan_all step fuel r.1 r.0 in if has_next s then rest else ok a

  abbrev pub handled :
      (Scanner → A → Result E (A × Scanner))
      → A
      → Option (FlagResult × Scanner)
      → Result E (A × Scanner)
  handled handle a none = panic
  handled handle a (some (r, s)) = handle s a

  -- one round of ParseWithFunc: the handler gets the scanner, which it may change
  abbrev pub read_and_handle :
      (Scanner → A → Result E (A × Scanner)) → Scanner → A → Result E (A × Scanner)
  read_and_handle handle s a = handled handle a (read_next_flag s)

  -- a handler that only reads the current result of its scanner
  abbrev pub reading : (FlagResult → A → Result E A) → Scanner → A → Result E (A × Scanner)
  reading handle s a = handle s.cur_result a >>= λ b. ok (b, s)

  -- ParseWithFunc, with the arguments in the file
  unfoldable pub parse_with_func :
      (Scanner → A → Result E (A × Scanner)) → Scanner → List String → A → Result E A
  parse_with_func handle template args a =
      scan_all (read_and_handle handle) (length args) (rsp_scanner template args) a
