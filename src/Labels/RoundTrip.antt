-- ===== src/Labels/RoundTrip.antt =====
-- FromMap undoes ToMap.
use reclient.Prelude.{
  String, ◌≡◌, eq_iff, arith, str_eq, if◌then◌else◌, some, true, ◌∙◌, Bool, not, ◌&&◌,
}
use reclient.Prelude.Maps.{Map, lookup, lookup-insert, string_eq}
use reclient.Labels.{
  Labels, or_empty, action_type_key, compiler_key, lang_key, action_tool_key, from_map, to_map,
  set_if_any,
}

lookup-set_if_any :
    (k j v : String) (m : Map String String)
    → lookup j (set_if_any k v m)
      ≡ (if str_eq v "" then lookup j m else (if str_eq k j then some v else lookup j m))
unfolding set_if_any
lookup-set_if_any k j v m = ground (arith, lookup-insert k j v m)

abbrev get : String → Map String String → String
get k m = or_empty (lookup k m)

get-set_if_any :
    (k j v : String) (m : Map String String)
    → get j (set_if_any k v m) ≡ (if str_eq k j && not (str_eq v "") then v else get j m)
get-set_if_any k j v m = ground (arith, lookup-set_if_any k j v m)

-- what is read back under the key of one field
written : String → Labels → String
unfolding to_map lookup
written j l = get j (to_map l)

abbrev kept : Bool → String → String → String
kept same v rest = if same && not (str_eq v "") then v else rest

written_lem :
    (j : String) (l : Labels)
    → written j l
      ≡ kept (str_eq action_tool_key j) l.action_tool (
          kept (str_eq lang_key j) l.lang (
            kept
              (str_eq compiler_key j)
              l.compiler
              (kept (str_eq action_type_key j) l.action_type "")))
unfolding written
written_lem j l = simp get-set_if_any

kept-empty : (v : String) → kept true v "" ≡ v
kept-empty v = ground (arith, eq_iff v "")

-- Labels written to a map and read back are the labels.
pub from_map-to_map : (l : Labels) → from_map (to_map l) ≡ l
unfolding from_map written
from_map-to_map l = λ i. record {
  action_type = (written_lem action_type_key l ∙ kept-empty l.action_type) i;
  compiler = (written_lem compiler_key l ∙ kept-empty l.compiler) i;
  lang = (written_lem lang_key l ∙ kept-empty l.lang) i;
  action_tool = (written_lem action_tool_key l ∙ kept-empty l.action_tool) i;
}
