-- ===== src/Stats/Leaves.antt =====
-- What the statistics of a list of records hold: the metrics at the leaves of the tree, each
-- summarised.
use reclient.Prelude.{
  ◌≡◌, refl, sym, ap, ◌∙◌, String, Option, some, [], ◌∷◌, ◌++◌, str_eq, if◌then◌else◌,
}
use reclient.Prelude.Maps.{Map, lookup, lookup-insert, string_eq}
use reclient.Prelude.Sort
use reclient.Stats.{Stat, StatTree, Subfields, node, no_subfields, subfield}
use reclient.Stats.Collector.{Stats, dotted, leaf_key, aggregate, aggregate_subfields}

-- An independent description: the leaves of a tree from left to right, by their names.
abbrev mutual
  pub leaves : StatTree → String → Map String Stat
  leaves (node name no_subfields st) prefix = (leaf_key (dotted prefix name) st.is_millis, st) ∷ []
  leaves (node name (subfield k t ts) st) prefix =
      leaves t (dotted prefix name) ++ leaves_below ts (dotted prefix name)

  pub leaves_below : Subfields → String → Map String Stat
  leaves_below no_subfields prefix = []
  leaves_below (subfield k t ts) prefix = leaves t prefix ++ leaves_below ts prefix

-- the last of the entries with a name
abbrev pub last_of : String → Map String Stat → Option Stat → Option Stat
last_of k [] o = o
last_of k ((j, st) ∷ m) o = last_of k m (if str_eq j k then some st else o)

last_of-append :
    (k : String) (m n : Map String Stat) (o : Option Stat)
    → last_of k (m ++ n) o ≡ last_of k n (last_of k m o)
last_of-append k [] n o = refl
last_of-append k ((j, st) ∷ m) n o = last_of-append k m n (if str_eq j k then some st else o)

mutual
  unfolding aggregate

  lookup-aggregate :
      (k : String) (t : StatTree) (prefix : String) (m : Map String Stat)
      → lookup k (aggregate t prefix m) ≡ last_of k (leaves t prefix) (lookup k m)
  lookup-aggregate k (node name no_subfields st) prefix m =
      lookup-insert (leaf_key (dotted prefix name) st.is_millis) k st m
  lookup-aggregate k (node name (subfield j t ts) st) prefix m =
      let p = dotted prefix name in
      lookup-aggregate_subfields k ts p (aggregate t p m)
      ∙ ap (last_of k (leaves_below ts p)) (lookup-aggregate k t p m)
      ∙ sym (last_of-append k (leaves t p) (leaves_below ts p) (lookup k m))

  lookup-aggregate_subfields :
      (k : String) (ts : Subfields) (prefix : String) (m : Map String Stat)
      → lookup k (aggregate_subfields ts prefix m) ≡ last_of k (leaves_below ts prefix) (lookup k m)
  lookup-aggregate_subfields k no_subfields prefix m = refl
  lookup-aggregate_subfields k (subfield j t ts) prefix m =
      lookup-aggregate_subfields k ts prefix (aggregate t prefix m)
      ∙ ap (last_of k (leaves_below ts prefix)) (lookup-aggregate k t prefix m)
      ∙ sym (last_of-append k (leaves t prefix) (leaves_below ts prefix) (lookup k m))
