-- ===== src/Stats/Apart.antt =====
-- What the tree of the statistics holds under a key of labels: what the records with these labels,
-- and no others, have added.
use Prim.Native.String.{◌++◌ as ◌<>◌}
use Prim.Native.Char.{Char}
use text.Mathlib.TextLemmas.{cons-append}
use reclient.Prelude.{
  ◌≢◌, ◌≡◌, refl, sym, ap, ◌∙◌, Bool, false, String, Option, none, some, List, [], ◌∷◌, ◌||◌,
  str_eq, eq_iff, if◌then◌else◌, arith, inl, inr, Bool-cases,
}
use reclient.Prelude.Maps.{Map}
use reclient.Labels.{to_key}
use reclient.Stats.{
  StatTree, Subfields, node, no_subfields, subfield, find_subfield, change_subfield, child,
  new_stat_tree,
}
use reclient.Stats.Messages.{LogRecord, Verification, TimeInterval}
use reclient.Stats.Logged.{add_log_record, record_fields}
use reclient.Stats.Collector.{
  Stats, new, labels_of, add_labelled, add_record, add_records, add_verified, add_invocation,
  add_cache_hit, add_proxy_times,
}

abbrev pub subtree : String → StatTree → Option StatTree
subtree k (node n ts st) = find_subfield k ts

abbrev or_new_tree : String → Option StatTree → StatTree
or_new_tree k none = new_stat_tree k
or_new_tree k (some t) = t

find-change :
    (k name : String) (f : StatTree → StatTree) (ts : Subfields)
    → find_subfield k (change_subfield name f ts) ≡ (
        if str_eq name k then some (f (or_new_tree k (find_subfield k ts))) else find_subfield k ts)
unfolding find_subfield change_subfield
find-change k name f no_subfields = ground (arith, eq_iff name k)
find-change k name f (subfield j t ts) =
    ground (arith, eq_iff name k, eq_iff j name, eq_iff j k, find-change k name f ts)

subtree-child :
    (k name : String) (f : StatTree → StatTree) (t : StatTree)
    → subtree k (child name f t)
      ≡ (if str_eq name k then some (f (or_new_tree k (subtree k t))) else subtree k t)
unfolding child
subtree-child k name f (node n ts st) = find-change k name f ts

abbrev key_is : String → Map String String → Bool
key_is k [] = false
key_is k (l ∷ ls) = str_eq (to_key (l ∷ ls)) k

-- Every record belongs to the empty key, and one with labels also to their key.
abbrev pub belongs : String → LogRecord → Bool
belongs k r = str_eq "" k || key_is k (labels_of r.local_metadata)

-- An independent description: only the records that belong to a key, one after the other.
abbrev pub own : String → List LogRecord → Option StatTree → Option StatTree
own k [] o = o
own k (r ∷ rs) o =
    own k rs (if belongs k r then some (record_fields r r.command_id (or_new_tree k o)) else o)

cons-≢-nil : (c : Char) (s : String) → (String.◌∷◌ c s) ≢ String.[]
cons-≢-nil c s e = cc e

append-empty : (s : String) → str_eq ("[" <> s) "" ≡ false
append-empty s = elim (Bool-cases (str_eq ("[" <> s) "")) [
  | inl e ↦ absurd (cons-≢-nil _ ("" <> s) (sym (cons-append _ "" s) ∙ (eq_iff ("[" <> s) "").0 e))
  | inr e ↦ e
]

to_key-empty : (ls : Map String String) → str_eq (to_key ls) "" ≡ false
unfolding to_key
to_key-empty ls = append-empty _

add_labelled-own :
    (k : String) (ls : Map String String) (r : LogRecord) (t : StatTree)
    → subtree k (add_labelled ls r (add_log_record (some r) "" r.command_id t)) ≡ (
        if str_eq "" k || key_is k ls
        then some (record_fields r r.command_id (or_new_tree k (subtree k t)))
        else subtree k t)
unfolding add_labelled add_log_record
add_labelled-own k [] r t = ground (arith, subtree-child k "" (record_fields r r.command_id) t)
add_labelled-own k (l ∷ ls) r t = ground (
  arith,
  subtree-child k (to_key (l ∷ ls)) (record_fields r r.command_id)
      (child "" (record_fields r r.command_id) t),
  subtree-child k "" (record_fields r r.command_id) t,
  eq_iff "" k,
  to_key-empty (l ∷ ls),
)

add_verified-tree : (o : Option Verification) (s : Stats) → (add_verified o s).tree ≡ s.tree
unfolding add_verified
add_verified-tree none s = refl
add_verified-tree (some vf) s = refl

add_invocation-tree : (id : String) (s : Stats) → (add_invocation id s).tree ≡ s.tree
unfolding add_invocation
add_invocation-tree id s = ground arith

add_cache_hit-tree : (status : String) (s : Stats) → (add_cache_hit status s).tree ≡ s.tree
unfolding add_cache_hit
add_cache_hit-tree status s = ground arith

add_proxy_times-tree :
    (o : Option (Option TimeInterval)) (s : Stats) → (add_proxy_times o s).tree ≡ s.tree
unfolding add_proxy_times
add_proxy_times-tree none s = refl
add_proxy_times-tree (some none) s = refl
add_proxy_times-tree (some (some ti)) s = ground arith

pub add_record-own :
    (k : String) (r : LogRecord) (s : Stats)
    → subtree k (add_record r s).tree ≡ own k (r ∷ []) (subtree k s.tree)
unfolding add_record
add_record-own k r s =
    rw (add_proxy_times-tree, add_cache_hit-tree, add_invocation-tree, add_verified-tree)
      (add_labelled-own k (labels_of r.local_metadata) r s.tree)

add_records-own :
    (k : String) (rs : List LogRecord) (s : Stats)
    → subtree k (add_records rs s).tree ≡ own k rs (subtree k s.tree)
unfolding add_records
add_records-own k [] s = refl
add_records-own k (r ∷ rs) s =
    add_records-own k rs (add_record r s) ∙ ap (own k rs) (add_record-own k r s)

-- After any records the tree under a key of labels is what the records that belong to the key make
-- of an empty tree, in order and each once; the other records have no part in it.
pub subtree-add_records :
    (k : String) (rs : List LogRecord) → subtree k (add_records rs new).tree ≡ own k rs none
unfolding new find_subfield
subtree-add_records k rs = add_records-own k rs new
