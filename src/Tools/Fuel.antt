-- ===== src/Tools/Fuel.antt =====
-- The loops over the command lines of javac, clang as a linker and metalava end.
use reclient.Prelude.{
  ℕ, ◌<◌, ◌≤◌, ◌≡◌, refl, sym, ap, ◌∙◌, Bool, true, false, String, List, [], ◌∷◌, Option, none,
  some, length, arith, subst, str_eq, if◌then◌else◌, ◌&&◌,
}
use reclient.Prelude.Result.{Result, ok, err, panic, ◌>>=◌}
use reclient.Args.{Scanner, FlagResult, has_next, read_next_flag, next, look_ahead}
use reclient.Args.Ahead.{look_ahead-read_next_flag}
use reclient.Args.Consume.{read_next_flag-Takes}
use reclient.Flags.{CommandFlags}
use reclient.Rsp.{scan_all}
use reclient.Rsp.Words.{bound, scan_all_fuel}
use reclient.Tools.{ToolError, add_dependencies}
use reclient.Tools.Clang.{Machine, Parsed, one_of}
use reclient.Tools.Javac.{javac_read, class_path, handle_javac_flags, handle_javac_result}
use reclient.Tools.Metalava.{
  metalava_read, metalava_flag, dep_flags, dep_value, source_path, metalava_dep, metalava_peeked,
  handle_metalava_flag, deps_in,
}
use reclient.Tools.Link.{Archives, link_read, handle_link_flags, handle_link_result}

javac_read-takes :
    (mc : Machine) (s : Scanner) (c : CommandFlags) (o : Option (FlagResult × Scanner))
    → read_next_flag s ≡ o
    → (r : CommandFlags × Scanner) → javac_read mc c o ≡ ok r
    → length r.1.args < length s.args
javac_read-takes mc s c none h r e = absurd (cc e)
javac_read-takes mc s c (some (f, t)) h r e =
    subst (λ u. length u.args < length s.args) (bound (handle_javac_result mc t f c) t r e)
      (read_next_flag-Takes s f t h).progress

link_read-takes :
    (mc : Machine) (ar : Archives) (s : Scanner) (p : Parsed) (o : Option (FlagResult × Scanner))
    → read_next_flag s ≡ o
    → (r : Parsed × Scanner) → link_read mc ar p o ≡ ok r
    → length r.1.args < length s.args
link_read-takes mc ar s p none h r e = absurd (cc e)
link_read-takes mc ar s p (some (f, t)) h r e =
    subst (λ u. length u.args < length s.args) (bound (handle_link_result mc ar t f p) t r e)
      (read_next_flag-Takes s f t h).progress

-- The rounds of javac's parser take an argument at least, so more fuel than there are arguments
-- changes nothing.
pub javac_fuel :
    (mc : Machine) (fuel : ℕ) (s : Scanner) (c : CommandFlags)
    → length s.args ≤ fuel
    → scan_all (handle_javac_flags mc) fuel s c
      ≡ scan_all (handle_javac_flags mc) (length s.args) s c
unfolding handle_javac_flags
javac_fuel mc fuel s c h =
    scan_all_fuel (handle_javac_flags mc)
      (λ t d r e. javac_read-takes mc t d (read_next_flag t) refl r e) (length s.args) fuel s c
      (omega arith) h

-- The same for the parser of clang as a linker.
pub link_fuel :
    (mc : Machine) (ar : Archives) (fuel : ℕ) (s : Scanner) (p : Parsed)
    → length s.args ≤ fuel
    → scan_all (handle_link_flags mc ar) fuel s p
      ≡ scan_all (handle_link_flags mc ar) (length s.args) s p
unfolding handle_link_flags
link_fuel mc ar fuel s p h =
    scan_all_fuel (handle_link_flags mc ar)
      (λ t q r e. link_read-takes mc ar t q (read_next_flag t) refl r e) (length s.args) fuel s p
      (omega arith) h

left_of : {A : Type 0} → Scanner → Result ToolError (A × Scanner) → Scanner
left_of s (ok r) = r.1
left_of s (err e) = s
left_of s panic = s

then_left :
    {A : Type 0} {B : Type 0} (x : Result ToolError A) (g : A → B) (t : Scanner) (r : B × Scanner)
    → (x >>= λ a. ok (g a, t)) ≡ ok r
    → t ≡ r.1
unfolding left_of
then_left (ok a) g t r e = ap (left_of t) e
then_left (err x) g t r e = absurd (cc e)
then_left panic g t r e = absurd (cc e)

dep_value-left :
    (mc : Machine) (f : CommandFlags) (t : Scanner) (args : List String)
    (r : CommandFlags × Scanner)
    → dep_value mc f t args ≡ ok r
    → t ≡ r.1
dep_value-left mc f t [] r e = absurd (cc e)
dep_value-left mc f t (a ∷ more) r e =
    then_left (deps_in mc f a) (λ ds. add_dependencies f (class_path ds)) t r e

choice-left :
    (b : Bool) (t : Scanner) (p : CommandFlags × Scanner)
    (x : Result ToolError (CommandFlags × Scanner)) (r : CommandFlags × Scanner)
    → t ≡ p.1
    → (x ≡ ok r → t ≡ r.1)
    → (if b then ok p else x) ≡ ok r
    → t ≡ r.1
unfolding left_of
choice-left false t p x r h k e = k e
choice-left true t p x r h k e = h ∙ ap (left_of t) e

metalava_dep-left :
    (mc : Machine) (q p : FlagResult) (f : CommandFlags) (t : Scanner) (r : CommandFlags × Scanner)
    → metalava_dep mc q f (some (p, t)) ≡ ok r
    → t ≡ r.1
unfolding metalava_dep
metalava_dep-left mc q p f t r e =
    choice-left (str_eq q.normalized_key "-sourcepath") t (source_path f t p.args)
      (dep_value mc f t p.args) r refl (dep_value-left mc f t p.args r) e

look_ahead-none : (s : Scanner) → read_next_flag s ≡ none → look_ahead s ≡ none
unfolding look_ahead next
look_ahead-none s h = ground arith

either_way :
    {X : Type 0} (b : Bool) (x y : Result ToolError X) (r : X) (P : Type 0)
    → (x ≡ ok r → P)
    → (y ≡ ok r → P)
    → (if b then x else y) ≡ ok r
    → P
either_way false x y r P h k e = k e
either_way true x y r P h k e = h e

at_most : (t u v : Scanner) → length u.args ≤ length t.args → u ≡ v → length v.args ≤ length t.args
at_most t u v h e = subst (λ w. length w.args ≤ length t.args) e h

metalava_peeked-most :
    (mc : Machine) (q : FlagResult) (f : CommandFlags) (t : Scanner)
    (o : Option (FlagResult × Scanner))
    → read_next_flag t ≡ o
    → (r : CommandFlags × Scanner) → metalava_peeked mc q f (look_ahead t) ≡ ok r
    → length r.1.args ≤ length t.args
unfolding metalava_peeked
metalava_peeked-most mc q f t none h r e =
    let there : metalava_peeked mc q f none ≡ ok r =
      ap (metalava_peeked mc q f) (sym (look_ahead-none t h)) ∙ e in
    absurd (cc there)
metalava_peeked-most mc q f t (some (p, u)) h r e =
    let ahead = look_ahead-read_next_flag t p u h in
    let put_back : Scanner = record u { args = t.args } in
    let there : metalava_peeked mc q f (some (p.normalized_key, put_back)) ≡ ok r =
      ap (metalava_peeked mc q f) (sym ahead.0) ∙ e in
    either_way (str_eq p.normalized_key "") (metalava_dep mc q f (read_next_flag put_back))
      (metalava_flag mc q f >>= λ g. ok (g, put_back)) r (length r.1.args ≤ length t.args)
      (λ dep.
        at_most t (record u { prev_result = p }) r.1
          (omega (arith, (read_next_flag-Takes t p u h).progress))
          (metalava_dep-left mc q p f (record u { prev_result = p }) r
            (ap (metalava_dep mc q f) (sym ahead.1) ∙ dep)))
      (λ flag.
        at_most t put_back r.1 (omega arith)
          (then_left (metalava_flag mc q f) (λ g. g) put_back r flag))
      there

metalava_read-takes :
    (mc : Machine) (s : Scanner) (c : CommandFlags) (o : Option (FlagResult × Scanner))
    → read_next_flag s ≡ o
    → (r : CommandFlags × Scanner) → metalava_read mc c o ≡ ok r
    → length r.1.args < length s.args
metalava_read-takes mc s c none h r e = absurd (cc e)
metalava_read-takes mc s c (some (q, t)) h r e =
    either_way (one_of q.normalized_key dep_flags && has_next t)
      (metalava_peeked mc q c (look_ahead t)) (metalava_flag mc q c >>= λ g. ok (g, t)) r
      (length r.1.args < length s.args)
      (λ peeked. omega (
        arith,
        (read_next_flag-Takes s q t h).progress,
        metalava_peeked-most mc q c t (read_next_flag t) refl r peeked,
      ))
      (λ flag. omega (
        arith,
        (read_next_flag-Takes s q t h).progress,
        at_most t t r.1 (omega arith) (then_left (metalava_flag mc q c) (λ g. g) t r flag),
      ))
      e

-- The same for the parser of metalava, which looks ahead and then reads two flags in some rounds.
pub metalava_fuel :
    (mc : Machine) (fuel : ℕ) (s : Scanner) (c : CommandFlags)
    → length s.args ≤ fuel
    → scan_all (handle_metalava_flag mc) fuel s c
      ≡ scan_all (handle_metalava_flag mc) (length s.args) s c
unfolding handle_metalava_flag
metalava_fuel mc fuel s c h =
    scan_all_fuel (handle_metalava_flag mc)
      (λ t d r e. metalava_read-takes mc t d (read_next_flag t) refl r e) (length s.args) fuel s c
      (omega arith) h
