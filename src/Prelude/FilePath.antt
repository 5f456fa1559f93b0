-- ===== src/Prelude/FilePath.antt =====
-- path/filepath on Unix, lexically: a path is read as its elements between slashes.
use Prim.Native.Char.{code}
use Prim.Native.String.{String, ◌++◌ as ◌<>◌}
use Prim.Native.Nat.{ℕ}
use mathlib.Core.Path.{◌≡◌, refl}
use mathlib.Core.Bool.{Bool, false, not, ◌||◌, ◌&&◌}
use mathlib.Core.List.{List, [], ◌∷◌, reverse}
use text.Mathlib.Text.{◌==◌ as str_eq}
use reclient.Prelude.Tests.{◌==◌, if◌then◌else◌}

abbrev pub slash : ℕ
slash = b'/'

-- os.IsPathSeparator
abbrev pub is_separator : ℕ → Bool
is_separator c = c == slash

-- filepath.IsAbs
unfoldable pub is_abs : String → Bool
is_abs String.[] = false
is_abs (String.◌∷◌ c s) = is_separator (code c)

-- the elements between the slashes: always one at least
unfoldable pub split_slashes : String → List String
split_slashes String.[] = "" ∷ []
split_slashes (String.◌∷◌ c s) =
    let parts = split_slashes s in
    if is_separator (code c)
    then "" ∷ parts
    else elim parts [ [] ↦ String.◌∷◌ c String.[] ∷ [] | p ∷ ps ↦ String.◌∷◌ c p ∷ ps ]

-- one element onto the elements before it, the last first
unfoldable pub push_element : Bool → List String → String → List String
push_element rooted stack e =
    if str_eq e "" || str_eq e "."
    then stack
    else if str_eq e ".."
    then elim stack [
      | [] ↦ if rooted then [] else ".." ∷ []
      | top ∷ rest ↦ if str_eq top ".." then ".." ∷ (top ∷ rest) else rest
    ]
    else e ∷ stack

unfoldable pub push_elements : Bool → List String → List String → List String
unfolding push_element
push_elements rooted stack [] = stack
push_elements rooted stack (e ∷ es) = push_elements rooted (push_element rooted stack e) es

unfoldable pub join_slashes : List String → String
join_slashes [] = ""
join_slashes (e ∷ []) = e
join_slashes (e ∷ (f ∷ es)) = e <> "/" <> join_slashes (f ∷ es)

-- the elements of filepath.Clean(p)
unfoldable pub clean_elements : String → List String
unfolding push_elements split_slashes is_abs
clean_elements p = reverse (push_elements (is_abs p) [] (split_slashes p))

-- filepath.Clean(p)
unfoldable pub clean : String → String
unfolding clean_elements join_slashes
clean p =
    if is_abs p
    then "/" <> join_slashes (clean_elements p)
    else elim (clean_elements p) [ [] ↦ "." | e ∷ es ↦ join_slashes (e ∷ es) ]

joined : List String → String
joined [] = ""
joined (p ∷ ps) = if str_eq p "" then joined ps else p <> "/" <> joined ps

-- filepath.Join: empty elements are left out, and nothing at all is the empty path
unfoldable pub join : List String → String
unfolding joined clean
join ps = let p = joined ps in if str_eq p "" then "" else clean p

clean_examples :
    (clean "a/./b/../c//d/" ≡ "a/c/d")
    × (clean "/../a/.." ≡ "/")
    × (clean "../../x/../y" ≡ "../../y")
    × (clean "" ≡ ".")
    × (join ("a" ∷ "" ∷ "../b" ∷ []) ≡ "b")
unfolding clean join
clean_examples = (refl, refl, refl, refl, refl)

abbrev pub has_slash : String → Bool
has_slash String.[] = false
has_slash (String.◌∷◌ c s) = is_separator (code c) || has_slash s

-- filepath.Ext
unfoldable pub ext : String → String
ext String.[] = ""
ext (String.◌∷◌ c s) =
    let inner = ext s in
    if str_eq inner ""
    then if (code c == b'.') && not (has_slash s) then String.◌∷◌ c s else ""
    else inner

-- strings.TrimSuffix(p, filepath.Ext(p))
unfoldable pub without_ext : String → String
unfolding ext
without_ext String.[] = ""
without_ext (String.◌∷◌ c s) =
    let rest = without_ext s in
    if str_eq (ext s) ""
    then if str_eq (ext (String.◌∷◌ c s)) "" then String.◌∷◌ c s else ""
    else String.◌∷◌ c rest

unfoldable pub last_element : String → List String → String
last_element e [] = e
last_element e (p ∷ ps) = if str_eq p "" then last_element e ps else last_element p ps

-- filepath.Base
unfoldable pub base : String → String
unfolding last_element split_slashes
base p = if str_eq p "" then "." else last_element "/" (split_slashes p)

unfoldable pub up_to_slash : String → String
up_to_slash String.[] = ""
up_to_slash (String.◌∷◌ c s) =
    let rest = up_to_slash s in
    if has_slash s then String.◌∷◌ c rest else if is_separator (code c) then "/" else ""

-- filepath.Dir
unfoldable pub dir : String → String
unfolding up_to_slash clean
dir p = clean (up_to_slash p)

element_examples :
    (ext "a.b/c.d.o" ≡ ".o")
    × (ext "a.b/c" ≡ "")
    × (without_ext "a.b/c.d.o" ≡ "a.b/c.d")
    × (base "a/b.o" ≡ "b.o")
    × (base "a/b//" ≡ "b")
    × (base "//" ≡ "/")
    × (dir "a/b/c.o" ≡ "a/b")
    × (dir "c.o" ≡ ".")
unfolding ext without_ext base dir
element_examples = (refl, refl, refl, refl, refl, refl, refl, refl)
