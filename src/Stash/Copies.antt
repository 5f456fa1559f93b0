-- ===== src/Stash/Copies.antt =====
-- What StashFiles has copied, and that restoring puts it back.
use reclient.Prelude.{
  ℕ, ◌+◌, ◌<◌, ◌≤◌, ◌≡◌, refl, sym, ap, ◌∙◌, Bool, true, false, not, ◌||◌, ◌&&◌, String, Option,
  none, some, List, [], ◌∷◌, if◌then◌else◌, str_eq, eq_iff, arith, inl, inr, Bool-cases, is_some,
}
use reclient.Prelude.Maps.{Map, lookup, insert, string_eq, lookup-insert_self, lookup-insert_other}
use reclient.Stash.{
  File, Files, Copy, copied, not_created, left_behind, Stashed, stash_copy, stash_file, stash_from,
  stash_files, restore,
}
use reclient.Stash.Restored.{
  is_dup, is_orig, dup_apart, Holds, Holds-agree, lookup-restore, is_put_back-all,
}

abbrev pub is_copied : Copy → Bool
is_copied copied = true
is_copied _ = false

flip : (a b : String) → str_eq a b ≡ false → str_eq b a ≡ false
flip a b h = ground (arith, eq_iff a b, eq_iff b a)

or_false : (b : Bool) → (b || false) ≡ b
or_false b = ground arith

swap : (a b c : Bool) → (a || (b || c)) ≡ ((b || a) || c)
swap a b c = ground arith

is_dup-insert :
    (k d p : String) (es : Map String String)
    → is_dup d es ≡ false
    → is_dup k (insert d p es) ≡ (str_eq d k || is_dup k es)
unfolding insert
is_dup-insert k d p [] h = refl
is_dup-insert k d p ((dup, orig) ∷ es) h = ground (arith, is_dup-insert k d p es)

is_orig-insert :
    (k d p : String) (es : Map String String)
    → is_dup d es ≡ false
    → is_orig k (insert d p es) ≡ (str_eq p k || is_orig k es)
unfolding insert
is_orig-insert k d p [] h = refl
is_orig-insert k d p ((dup, orig) ∷ es) h = ground (arith, is_orig-insert k d p es)

Holds-insert :
    (first fs : Files) (es : Map String String) (d p : String) (f : File)
    → lookup d fs ≡ some f
    → lookup p first ≡ some f
    → str_eq p d ≡ false
    → is_dup d es ≡ false
    → is_orig d es ≡ false
    → is_dup p es ≡ false
    → Holds first fs es
    → Holds first fs (insert d p es)
unfolding insert
Holds-insert first fs [] d p f here there pd hd ho hp h =
    ((f, here, there), pd, refl, refl, refl, tt)
Holds-insert first fs ((dup, orig) ∷ es) d p f here there pd hd ho hp h =
    let d_other : str_eq dup d ≡ false = ground arith in
    let flip : str_eq d dup ≡ false = ground (arith, eq_iff d dup, eq_iff dup d) in
    let o_other : str_eq d orig ≡ false = ground (arith, eq_iff d orig, eq_iff orig d) in
    let p_other : str_eq p dup ≡ false = ground (arith, eq_iff p dup, eq_iff dup p) in
    let rest_d : is_dup d es ≡ false = ground arith in
    rw d_other (
      h.0,
      h.1,
      is_dup-insert dup d p es rest_d ∙ rw (flip, h.2) refl,
      is_orig-insert dup d p es rest_d ∙ rw (p_other, h.3) refl,
      is_dup-insert orig d p es rest_d ∙ rw (o_other, h.4) refl,
      Holds-insert first fs es d p f here there pd rest_d (ground arith) (ground arith) h.5,
    )

module _ (name : ℕ → String) (distinct : (i j : ℕ) → name i ≡ name j → i ≡ j) where
  -- not the name of a copy
  abbrev pub IsFree : String → Type 0
  IsFree k = (j : ℕ) → str_eq (name j) k ≡ false

  abbrev pub AllFree : List String → Type 0
  AllFree [] = Unit
  AllFree (p ∷ ps) = IsFree p × AllFree ps

  names_apart : (i j : ℕ) → i < j → str_eq (name i) (name j) ≡ false
  names_apart i j lt = elim (Bool-cases (str_eq (name i) (name j))) [
    | inl same ↦
        let at : i ≡ j = distinct i j ((eq_iff (name i) (name j)).0 same) in absurd (omega arith)
    | inr other ↦ other
  ]

  record IsReady (first : Files) (i : ℕ) (s : Stashed) : Type 0 where
    holds : Holds first s.0 s.1
    fresh : (j : ℕ) → i ≤ j → is_dup (name j) s.1 ≡ false
    no_copy : (j : ℕ) → is_orig (name j) s.1 ≡ false
    free : (k : String) → IsFree k → is_dup k s.1 ≡ false
    kept : (k : String) → IsFree k → lookup k s.0 ≡ lookup k first

  later : {first : Files} {i : ℕ} {s : Stashed} → IsReady first i s → IsReady first (i + 1) s
  later r = record {
    holds = r.holds;
    fresh = λ j le. r.fresh j (omega arith);
    no_copy = r.no_copy;
    free = r.free;
    kept = r.kept;
  }

  -- Something new at the name of the next copy.
  put_copy :
      (first : Files) (i : ℕ) (fs : Files) (es : Map String String) (g : File)
      → IsReady first i (fs, es)
      → IsReady first (i + 1) (insert (name i) g fs, es)
  put_copy first i fs es g r = record {
    holds =
        Holds-agree first fs (insert (name i) g fs) es
          (λ k d.
            lookup-insert_other (name i) k g fs
              (dup_apart (name i) k es (r.fresh i (omega arith)) d))
          r.holds;
    fresh = λ j le. r.fresh j (omega arith);
    no_copy = r.no_copy;
    free = r.free;
    kept = λ k free. lookup-insert_other (name i) k g fs (free i) ∙ r.kept k free;
  }

  set_aside :
      (first : Files) (i : ℕ) (fs : Files) (es : Map String String) (p : String) (f : File)
      → IsFree p
      → lookup p fs ≡ some f
      → IsReady first i (fs, es)
      → IsReady first (i + 1) (insert (name i) f fs, insert (name i) p es)
  set_aside first i fs es p f free found r =
      let q = put_copy first i fs es f r in
      let unused = r.fresh i (omega arith) in
      record {
        holds =
            Holds-insert first (insert (name i) f fs) es (name i) p f
              (lookup-insert_self (name i) f fs) (sym (r.kept p free) ∙ found)
              (flip (name i) p (free i)) unused (r.no_copy i) (r.free p free) q.holds;
        fresh = λ j le.
            is_dup-insert (name j) (name i) p es unused
            ∙ rw (names_apart i j (omega arith), r.fresh j (omega arith)) refl;
        no_copy = λ j.
            is_orig-insert (name j) (name i) p es unused
            ∙ rw (flip (name j) p (free j), r.no_copy j) refl;
        free = λ k fr. is_dup-insert k (name i) p es unused ∙ rw (fr i, r.free k fr) refl;
        kept = q.kept;
      }

  stash_copy-IsReady :
      (first : Files) (i : ℕ) (fs : Files) (es : Map String String) (p : String) (f : File)
      (c : Copy)
      → IsFree p
      → lookup p fs ≡ some f
      → IsReady first i (fs, es)
      → IsReady first (i + 1) (stash_copy (name i) p f c (fs, es))
  stash_copy-IsReady first i fs es p f copied free found r =
      set_aside first i fs es p f free found r
  stash_copy-IsReady first i fs es p f not_created free found r = later r
  stash_copy-IsReady first i fs es p f (left_behind g) free found r = put_copy first i fs es g r

  stash_file-IsReady :
      (first : Files) (i : ℕ) (fs : Files) (es : Map String String) (p : String) (o : Option File)
      (c : Copy)
      → IsFree p
      → lookup p fs ≡ o
      → IsReady first i (fs, es)
      → IsReady first (i + 1) (stash_file (name i) p o c (fs, es))
  stash_file-IsReady first i fs es p none c free found r = later r
  stash_file-IsReady first i fs es p (some f) c free found r =
      stash_copy-IsReady first i fs es p f c free found r

  -- Whether a file is among those that are copied.
  abbrev pub is_stashed : (String → Copy) → Files → String → List String → Bool
  is_stashed copy fs k [] = false
  is_stashed copy fs k (p ∷ ps) =
      (str_eq p k && is_some (lookup p fs) && is_copied (copy p)) || is_stashed copy fs k ps

  stash_from-IsReady :
      (first : Files) (copy : String → Copy) (ps : List String) (i : ℕ) (s : Stashed)
      → AllFree ps
      → IsReady first i s
      → (n : ℕ) × IsReady first n (stash_from name copy i ps s)
  unfolding stash_from
  stash_from-IsReady first copy [] i s free r = (i, r)
  stash_from-IsReady first copy (p ∷ ps) i s free r =
      stash_from-IsReady first copy ps (i + 1) (stash_file (name i) p (lookup p s.0) (copy p) s)
        free.1 (stash_file-IsReady first i s.0 s.1 p (lookup p s.0) (copy p) free.0 refl r)

  is_orig-stash_file :
      (k p : String) (i : ℕ) (fs : Files) (es : Map String String) (o : Option File) (c : Copy)
      → is_dup (name i) es ≡ false
      → is_orig k (stash_file (name i) p o c (fs, es)).1
        ≡ ((str_eq p k && is_some o && is_copied c) || is_orig k es)
  is_orig-stash_file k p i fs es none c h = ground arith
  is_orig-stash_file k p i fs es (some f) copied h = is_orig-insert k (name i) p es h ∙ ground arith
  is_orig-stash_file k p i fs es (some f) not_created h = ground arith
  is_orig-stash_file k p i fs es (some f) (left_behind g) h = ground arith

  is_orig-stash_from :
      (first : Files) (copy : String → Copy) (k : String) (ps : List String) (i : ℕ) (s : Stashed)
      → AllFree ps
      → IsReady first i s
      → is_orig k (stash_from name copy i ps s).1 ≡ (is_stashed copy first k ps || is_orig k s.1)
  unfolding stash_from
  is_orig-stash_from first copy k [] i s free r = refl
  is_orig-stash_from first copy k (p ∷ ps) i s free r =
      is_orig-stash_from first copy k ps (i + 1) (stash_file (name i) p (lookup p s.0) (copy p) s)
        free.1 (stash_file-IsReady first i s.0 s.1 p (lookup p s.0) (copy p) free.0 refl r)
      ∙ rw
          (
            is_orig-stash_file k p i s.0 s.1 (lookup p s.0) (copy p) (r.fresh i (omega arith)),
            r.kept p free.0,
          )
          (swap (is_stashed copy first k ps)
            (str_eq p k && is_some (lookup p first) && is_copied (copy p)) (is_orig k s.1))

-- After files were copied aside under new names, all different, and as long as nothing touches the
-- copies, restoring gives every file that was copied and to which the system can rename its first
-- content and mode again, whatever has happened to it; every other file that is no copy, also one
-- to which every rename fails, stays as it is.
pub restore-stash_files :
    (name : ℕ → String) (distinct : (i j : ℕ) → name i ≡ name j → i ≡ j) (copy : String → Copy)
    (paths : List String) (first now : Files) (fails : String → String → Bool) (k : String)
    (can : Bool)
    → AllFree name distinct paths
    → ((d : String)
        → is_dup d (stash_files name copy paths first).1 ≡ true
        → lookup d now ≡ lookup d (stash_files name copy paths first).0)
    → IsFree name distinct k
    → ((d : String) → fails d k ≡ not can)
    → lookup k (restore fails (stash_files name copy paths first).1 now) ≡ (
        if is_stashed name distinct copy first k paths && can then lookup k first else lookup k now)
unfolding stash_files
restore-stash_files name distinct copy paths first now fails k can free untouched k_free renames =
    let begin : IsReady name distinct first 0 (first, []) = record {
      holds = tt;
      fresh = λ j le. refl;
      no_copy = λ j. refl;
      free = λ d fr. refl;
      kept = λ d fr. refl;
    } in
    let (n, ready) = stash_from-IsReady name distinct first copy paths 0 (first, []) free begin in
    let s = stash_from name copy 0 paths (first, []) in
    lookup-restore fails first now s.1 k (Holds-agree first s.0 now s.1 untouched ready.holds)
      (ready.free k k_free)
    ∙ ap (λ b. if b then lookup k first else lookup k now)
        (is_put_back-all fails k can s.1 renames
          ∙ ap (λ b. b && can)
              (is_orig-stash_from name distinct first copy k paths 0 (first, []) free begin
                ∙ or_false (is_stashed name distinct copy first k paths)))
