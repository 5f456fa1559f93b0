-- ===== src/Compare/Outputs.antt =====
-- Which paths a comparison finds.
use reclient.Prelude.{
  ℕ, ◌≡◌, refl, ap, ◌∙◌, Bool, true, false, ◌||◌, String, List, [], ◌∷◌, str_eq, arith,
}
use reclient.Prelude.Maps.{Map, insert, string_eq}
use reclient.Prelude.Maps.Once.{bit, times, times-insert, has_key, has_key-insert}
use reclient.Compare.{
  Mismatches, Rerun, Compared, find_in, find_mismatches, find_all, found, or_none, merge_maps,
}

-- whether a rerun has an output, a file or a directory, at a path
abbrev pub has_output : String → Rerun → Bool
has_output k r = has_key k r.output_file_digests || has_key k r.output_directory_digests

abbrev pub have_output : String → List Rerun → Bool
have_output k [] = false
have_output k (r ∷ rs) = has_output k r || have_output k rs

-- whether one of the reruns of an action has
abbrev pub is_output : String → Compared → Bool
is_output k a = have_output k a.local_reruns || have_output k (or_none a.remote_reruns)

shifted : (a b c : Bool) → (b || (a || c)) ≡ ((a || b) || c)
shifted a b c = ground arith

moved_in : (a b c : Bool) → ((a || b) || c) ≡ (b || (a || c))
moved_in a b c = ground arith

grouped : (a b c : Bool) → ((a || b) || c) ≡ (a || (b || c))
grouped a b c = ground arith

swapped : (a b : Bool) → (a || (b || false)) ≡ (b || a)
swapped a b = ground arith

has_key-merge_maps :
    (k : String) (dst src : Map String String)
    → has_key k (merge_maps dst src) ≡ (has_key k src || has_key k dst)
unfolding merge_maps
has_key-merge_maps k dst [] = refl
has_key-merge_maps k dst ((j, v) ∷ src) =
    has_key-merge_maps k (insert j v dst) src
    ∙ ap (λ b. has_key k src || b) (has_key-insert k j v dst)
    ∙ shifted (str_eq k j) (has_key k src) (has_key k dst)

module _ (k digest : String) (remote : Bool) where
  times-find_in :
      (all : Map String String) (ms : Mismatches) (n : ℕ) (b : Bool)
      → times k ms ≡ bit b
      → times k (find_in digest remote all (ms, n)).0 ≡ bit (b || has_key k all)
  unfolding find_in
  times-find_in [] ms n b h = ground (arith, h)
  times-find_in ((fp, dg) ∷ all) ms n b h =
      times-find_in all _ _ (str_eq k fp || b) (times-insert k fp _ ms b h)
      ∙ ap bit (moved_in (str_eq k fp) b (has_key k all))

  times-find_all :
      (rs : List Rerun) (acc : Mismatches × ℕ) (b : Bool)
      → times k acc.0 ≡ bit b
      → times k (find_all digest remote rs acc).0 ≡ bit (b || have_output k rs)
  unfolding find_all find_mismatches
  times-find_all [] acc b h = ground (arith, h)
  times-find_all (r ∷ rs) acc b h =
      let all = merge_maps (merge_maps [] r.output_file_digests) r.output_directory_digests in
      let merged : has_key k all ≡ has_output k r =
        has_key-merge_maps k (merge_maps [] r.output_file_digests) r.output_directory_digests
        ∙ ap (λ c. has_key k r.output_directory_digests || c)
            (has_key-merge_maps k [] r.output_file_digests)
        ∙ swapped (has_key k r.output_directory_digests) (has_key k r.output_file_digests) in
      times-find_all rs _ (b || has_output k r)
        (times-find_in all acc.0 acc.1 b h ∙ ap (λ c. bit (b || c)) merged)
      ∙ ap bit (grouped b (has_output k r) (have_output k rs))

-- each output path once, and nothing else
pub times-found : (k : String) (a : Compared) → times k (found a).0 ≡ bit (is_output k a)
unfolding found
times-found k a =
    times-find_all k a.digest true (or_none a.remote_reruns) _ (have_output k a.local_reruns)
      (times-find_all k a.digest false a.local_reruns ([], 0) false refl)
