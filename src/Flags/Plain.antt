-- ===== src/Flags/Plain.antt =====
-- The parser that understands no flag returns for every command line, and loses none of it.
use mathlib.Core.List.{append-nil, append_assoc}
use reclient.Prelude.{
  ◌≡◌, refl, sym, ap, ◌∙◌, false, String, List, [], ◌∷◌, ◌++◌, map, length, arith, some,
  if◌then◌else◌, Bool-cases, inl, inr,
}
use reclient.Prelude.Text.{has_prefix}
use reclient.Prelude.Result.{ok, err}
use reclient.Args.{no_result, FlagResult, Scanner, NextFlag, next}
use reclient.Flags.{
  Flag, value_flag, no_flags, scan_flags, plain_scanner, command_flags, no_command,
}

-- one argument, as the scanner with no known flag reports it
abbrev pub plain_flags : String → List Flag
plain_flags arg =
    if has_prefix arg "-" then value_flag arg ∷ [] else value_flag "" ∷ value_flag arg ∷ []

abbrev pub all_plain_flags : List String → List Flag
all_plain_flags [] = []
all_plain_flags (a ∷ args) = plain_flags a ++ all_plain_flags args

abbrev plain : List String → FlagResult → FlagResult → Scanner
plain args p c = record (plain_scanner args) { prev_result = p; cur_result = c }

abbrev plain_next : String → NextFlag
plain_next a =
    if has_prefix a "-"
    then record { flag = a; args = a ∷ []; values = []; joined = false }
    else record { flag = ""; args = a ∷ []; values = a ∷ []; joined = false }

abbrev plain_result : String → FlagResult
plain_result a =
    if has_prefix a "-"
    then record { args = a ∷ []; normalized_key = a; original_key = a; values = []; joined = false }
    else record {
      args = a ∷ [];
      normalized_key = "";
      original_key = "";
      values = a ∷ [];
      joined = false;
    }

next-plain :
    (a : String) (args : List String) (p c : FlagResult)
    → next (plain (a ∷ args) p c) ≡ some (plain_next a, plain args c (plain_result a))
unfolding next
next-plain a args p c = elim (Bool-cases (has_prefix a "-")) [ inl e ↦ simp e | inr e ↦ simp e ]

plain_next-flags :
    (a : String)
    → value_flag (plain_next a).flag ∷ map value_flag (plain_next a).values ≡ plain_flags a
plain_next-flags a = ground arith

scan_flags-plain :
    (args : List String) (p c : FlagResult) (flags : List Flag)
    → scan_flags (length args) (plain args p c) flags ≡ ok (flags ++ all_plain_flags args)
unfolding scan_flags
scan_flags-plain [] p c flags = ap ok (sym (append-nil flags))
scan_flags-plain (a ∷ args) p c flags =
    rw (next-plain a args p c, scan_flags)
      (rw (plain_next-flags a) (scan_flags-plain args c (plain_result a) _ ∙ rw append_assoc))

-- CommandFlags refuses the empty command line; any other gives the executable, the directories and
-- the flags of its arguments in order: an argument that begins with a dash stands for itself, any
-- other for an empty flag and itself. The scan ends within as many rounds as there are arguments.
pub command_flags_lem :
    (executable : String) (args : List String) (working_dir exec_root : String)
    → (command_flags [] working_dir exec_root ≡ err no_command)
      × (command_flags (executable ∷ args) working_dir exec_root
          ≡ ok (record no_flags {
            executable_path = executable;
            working_directory = working_dir;
            exec_root = exec_root;
            flags = all_plain_flags args;
          }))
unfolding command_flags
command_flags_lem executable args working_dir exec_root =
    (refl, rw (scan_flags-plain args no_result no_result [], command_flags))
