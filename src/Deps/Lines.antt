-- ===== src/Deps/Lines.antt =====
-- Which lines GetDeps writes.
use reclient.Prelude.{
  ◌≡◌, refl, ap, ◌∙◌, Bool, true, false, Option, none, some, List, [], ◌∷◌, ◌||◌, str_eq, String,
  if◌then◌else◌, arith,
}
use reclient.Prelude.Maps.{Map, keys, string_eq}
use reclient.Prelude.Maps.Once.{bit, times, times-insert}
use reclient.Prelude.Sort.Order.{count_if, count_if-sort, IsSorted, sort-IsSorted}
use reclient.Prelude.Sort.Texts.{string_leb, string_leb_trans, string_leb_total}
use reclient.Deps.{Parser, dep_line, path_of, with_line, add_dep, add_deps, lines_of}

-- whether a path's line is this one
abbrev pub is_line : String → Option String → Bool
is_line line none = false
is_line line (some l) = str_eq line l

-- whether one of the paths gives this line
abbrev pub gives : String → Parser → List String → Bool
gives line p [] = false
gives line p (path ∷ paths) =
    is_line line (dep_line (p.get (path_of p path)) path) || gives line p paths

times-with_line :
    (line : String) (o : Option String) (m : Map String Bool) (b : Bool)
    → times line m ≡ bit b
    → times line (with_line o m) ≡ bit (is_line line o || b)
times-with_line line none m b h = h
times-with_line line (some l) m b h = times-insert line l true m b h

moved_over : (a b c : Bool) → ((a || b) || c) ≡ (b || (a || c))
moved_over a b c = ground arith

times-add_deps :
    (line : String) (p : Parser) (paths : List String) (m : Map String Bool) (b : Bool)
    → times line m ≡ bit b
    → times line (add_deps p paths m) ≡ bit (b || gives line p paths)
unfolding add_deps add_dep
times-add_deps line p [] m b h = ground (arith, h)
times-add_deps line p (path ∷ paths) m b h =
    let here = is_line line (dep_line (p.get (path_of p path)) path) in
    times-add_deps line p paths (add_dep p path m) (here || b)
      (times-with_line line (dep_line (p.get (path_of p path)) path) m b h)
    ∙ ap bit (moved_over here b (gives line p paths))

-- GetDeps writes its lines in order, and the line of each path once, however often it is named;
-- it writes no other line.
pub lines_of_lem :
    (p : Parser) (paths : List String)
    → IsSorted string_leb (lines_of p paths)
      × ((line : String)
          → count_if (str_eq line) (lines_of p paths) ≡ (if gives line p paths then 1 else 0))
unfolding lines_of
lines_of_lem p paths = (
  sort-IsSorted string_leb string_leb_trans string_leb_total (keys (add_deps p paths [])),
  λ line.
      rw (count_if-sort string_leb (str_eq line) (keys (add_deps p paths [])))
        (times-add_deps line p paths [] false refl),
)
