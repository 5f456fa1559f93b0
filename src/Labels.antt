-- ===== src/Labels.antt =====
-- internal/pkg/labels/labels.go: the labels that say what kind of action a command is.
pub mod Kinds
pub mod RoundTrip
use Prim.Native.String.{◌++◌ as ◌<>◌}
use reclient.Prelude.{String, Bool, Option, none, some, List, [], ◌∷◌, map, str_eq, if◌then◌else◌}
use reclient.Prelude.Maps.{Map, lookup, insert, string_eq}
use reclient.Prelude.Sort.{sort}
use reclient.Prelude.Sort.Texts.{string_leb}

abbrev pub action_type_key : String
action_type_key = "type"

abbrev pub compiler_key : String
compiler_key = "compiler"

abbrev pub lang_key : String
lang_key = "lang"

abbrev pub action_tool_key : String
action_tool_key = "tool"

pub record Labels : Type 0 where
  pub action_type : String
  pub compiler : String
  pub lang : String
  pub action_tool : String

abbrev pub no_labels : Labels
no_labels = record { action_type = ""; compiler = ""; lang = ""; action_tool = "" }

-- `if v, ok := l[key]; ok`: a missing key leaves the empty string
abbrev pub or_empty : Option String → String
or_empty none = ""
or_empty (some v) = v

-- FromMap
unfoldable pub from_map : Map String String → Labels
unfolding lookup
from_map l = record {
  action_type = or_empty (lookup action_type_key l);
  compiler = or_empty (lookup compiler_key l);
  lang = or_empty (lookup lang_key l);
  action_tool = or_empty (lookup action_tool_key l);
}

-- `if v != "" { res[key] = v }`
unfoldable pub set_if_any : String → String → Map String String → Map String String
unfolding insert
set_if_any k v m = if str_eq v "" then m else insert k v m

-- ToMap
unfoldable pub to_map : Labels → Map String String
unfolding set_if_any
to_map l = set_if_any action_tool_key l.action_tool (
    set_if_any lang_key l.lang
      (set_if_any compiler_key l.compiler (set_if_any action_type_key l.action_type [])))

abbrev key_value : String × String → String
key_value (k, v) = k <> "=" <> v

-- strings.Join
unfoldable pub join : String → List String → String
join sep [] = ""
join sep (x ∷ []) = x
join sep (x ∷ (y ∷ ys)) = x <> sep <> join sep (y ∷ ys)

-- ToKey
unfoldable pub to_key : Map String String → String
unfolding sort join
to_key labels = "[" <> join "," (sort string_leb (map key_value labels)) <> "]"
