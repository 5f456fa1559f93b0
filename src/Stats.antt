-- ===== src/Stats.antt =====
-- internal/pkg/stats/stats.go: the tree of aggregated metrics, and what a number, a Boolean or a
-- status adds to one of its nodes. The map of the children of a node is a list of entries.
pub mod Messages
pub mod Logged
pub mod Summary
pub mod Collector
pub mod Bandwidth
pub mod Outliers
pub mod Units
pub mod Ranks
pub mod Apart
pub mod Leaves
pub mod Report
use reclient.Prelude.{
  ℕ, ◌+◌, Bool, true, false, String, Option, none, some, List, [], ◌∷◌, ◌++◌, ◌||◌, ◌&&◌, str_eq,
  if◌then◌else◌, is_some, not,
}
use reclient.Prelude.Int.{ℤ, pos, ltb_ℤ, eqb_ℤ, add64}
use reclient.Prelude.Maps.{Map, lookup, insert, string_eq}

pub record Outlier : Type 0 where
  pub command_id : String
  pub value : ℤ

pub record Stat : Type 0 where
  pub count : ℤ
  pub count_by_value : Map String ℤ
  pub raw_values : List ℤ
  pub is_millis : Bool
  pub outlier1 : Option Outlier
  pub outlier2 : Option Outlier
  pub median : ℤ
  pub percentile75 : ℤ
  pub percentile85 : ℤ
  pub percentile95 : ℤ
  -- the sum of the values and their number
  pub average : Option (ℤ × ℕ)

abbrev pub empty_stat : Stat
empty_stat = record {
  count = pos 0;
  count_by_value = [];
  raw_values = [];
  is_millis = false;
  outlier1 = none;
  outlier2 = none;
  median = pos 0;
  percentile75 = pos 0;
  percentile85 = pos 0;
  percentile95 = pos 0;
  average = none;
}

abbrev no_values : Map String ℤ → Bool
no_values [] = true
no_values (e ∷ m) = false

-- IsEmpty
unfoldable pub is_empty : Stat → Bool
is_empty st = not (is_some st.outlier1) && eqb_ℤ st.count (pos 0) && no_values st.count_by_value

mutual
  pub data StatTree : Type 0 where
    node : String → Subfields → Stat → StatTree

  pub data Subfields : Type 0 where
    no_subfields : Subfields
    subfield : String → StatTree → Subfields → Subfields

-- newStatTree, with the name that child gives it
abbrev pub new_stat_tree : String → StatTree
new_stat_tree name = node name no_subfields empty_stat

unfoldable pub find_subfield : String → Subfields → Option StatTree
find_subfield name no_subfields = none
find_subfield name (subfield k t ts) = if str_eq k name then some t else find_subfield name ts

-- the node called `name` is made if it is missing, and `f` is done to it
unfoldable pub change_subfield : String → (StatTree → StatTree) → Subfields → Subfields
change_subfield name f no_subfields = subfield name (f (new_stat_tree name)) no_subfields
change_subfield name f (subfield k t ts) =
    if str_eq k name then subfield k (f t) ts else subfield k t (change_subfield name f ts)

-- child, and what is then done to the child
unfoldable pub child : String → (StatTree → StatTree) → StatTree → StatTree
child name f (node n ts st) = node n (change_subfield name f ts) st

abbrev pub on_value : (Stat → Stat) → StatTree → StatTree
on_value f (node n ts st) = node n ts (f st)

-- whether a value is the first one or more than the outlier
abbrev pub exceeds : ℤ → Option Outlier → Bool
exceeds v none = true
exceeds v (some o) = ltb_ℤ o.value v

-- addNum from the outliers on
unfoldable pub add_outlier : ℤ → String → Stat → Stat
add_outlier v cmd st =
    if eqb_ℤ v (pos 0)
    then st
    else if exceeds v st.outlier1
    then record st {
      outlier1 = some (record { command_id = cmd; value = v });
      outlier2 = st.outlier1;
    }
    else if exceeds v st.outlier2
    then record st { outlier2 = some (record { command_id = cmd; value = v }) }
    else st

-- addNum up to the outliers
unfoldable pub add_raw : ℤ → Bool → Stat → Stat
add_raw v true st = record st {
  raw_values = st.raw_values ++ v ∷ [];
  is_millis = true;
  count = add64 st.count (pos 1);
}
add_raw v false st = record st { raw_values = st.raw_values ++ v ∷ []; count = add64 st.count v }

abbrev pub add_value : ℤ → String → Bool → Stat → Stat
add_value v cmd millis st = add_outlier v cmd (add_raw v millis st)

-- addNum
unfoldable pub add_num : ℤ → String → String → Bool → StatTree → StatTree
add_num v name cmd millis = child name (on_value (add_value v cmd millis))

unfoldable pub count_true : Bool → Stat → Stat
count_true true st = record st { count = add64 st.count (pos 1) }
count_true false st = st

-- addBool
unfoldable pub add_bool : Bool → String → StatTree → StatTree
add_bool b name = child name (on_value (count_true b))

abbrev pub count_at : String → Map String ℤ → Option ℤ → Map String ℤ
count_at v m none = insert v (add64 (pos 0) (pos 1)) m
count_at v m (some n) = insert v (add64 n (pos 1)) m

unfoldable pub count_value : Option String → Stat → Stat
count_value none st = st
count_value (some v) st = record st {
  count_by_value = count_at v st.count_by_value (lookup v st.count_by_value);
}

-- addStatus
unfoldable pub add_status : Option String → String → StatTree → StatTree
add_status res name = child name (on_value (count_value res))
