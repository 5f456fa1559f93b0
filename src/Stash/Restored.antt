-- ===== src/Stash/Restored.antt =====
-- What restoring puts back.
use reclient.Prelude.{
  ◌≡◌, refl, ◌∙◌, subst, sym, not, ◌&&◌, Bool, true, false, ◌||◌, String, Option, none, some, [],
  ◌∷◌, if◌then◌else◌, str_eq, eq_iff, arith, inl, inr, Bool-cases,
}
use reclient.Prelude.Maps.{Map, lookup, delete, string_eq, lookup-insert, lookup-delete}
use reclient.Stash.{File, Files, rename, restore}

abbrev pub is_dup : String → Map String String → Bool
is_dup k [] = false
is_dup k ((dup, orig) ∷ es) = str_eq dup k || is_dup k es

abbrev pub is_orig : String → Map String String → Bool
is_orig k [] = false
is_orig k ((dup, orig) ∷ es) = str_eq orig k || is_orig k es

-- The copies hold the files that they are of, as these were at first; each is in its own place, and
-- none is in the place of a file.
abbrev pub Holds : Files → Files → Map String String → Type 0
Holds first fs [] = Unit
Holds first fs ((dup, orig) ∷ es) =
    ((f : File) × (lookup dup fs ≡ some f) × (lookup orig first ≡ some f))
    × (str_eq orig dup ≡ false)
    × (is_dup dup es ≡ false)
    × (is_orig dup es ≡ false)
    × (is_dup orig es ≡ false)
    × Holds first fs es

-- Whether a file is put back: one of the renames to it succeeds.
abbrev pub is_put_back : (String → String → Bool) → String → Map String String → Bool
is_put_back fails k [] = false
is_put_back fails k ((dup, orig) ∷ es) =
    (str_eq orig k && not (fails dup orig)) || is_put_back fails k es

lookup-rename :
    (fails : String → String → Bool) (dup orig k : String) (f : File) (fs : Files)
    → lookup dup fs ≡ some f
    → lookup k (rename fails dup orig fs) ≡ (
        if fails dup orig
        then lookup k fs
        else if str_eq orig k
        then some f
        else if str_eq dup k
        then none
        else lookup k fs)
unfolding rename
lookup-rename fails dup orig k f fs h = elim (Bool-cases (fails dup orig)) [
  | inl e ↦ rw e refl
  | inr e ↦ rw e (rw h (rw (lookup-insert orig k f (delete dup fs), lookup-delete dup k fs) refl))
]

either-right : (a b : Bool) → b ≡ true → (a || b) ≡ true
either-right true b h = refl
either-right false b h = h

-- A path that is not one of these is another one than each that is.
pub dup_apart :
    (a k : String) (es : Map String String)
    → is_dup a es ≡ false
    → is_dup k es ≡ true
    → str_eq a k ≡ false
dup_apart a k es h d = elim (Bool-cases (str_eq a k)) [
  | inl same ↦ absurd (cc (subst (λ x. is_dup x es ≡ false) ((eq_iff a k).0 same) h, d))
  | inr other ↦ other
]

pub Holds-agree :
    (first fs gs : Files) (es : Map String String)
    → ((k : String) → is_dup k es ≡ true → lookup k gs ≡ lookup k fs)
    → Holds first fs es
    → Holds first gs es
Holds-agree first fs gs [] same h = tt
Holds-agree first fs gs ((dup, orig) ∷ es) same h =
    let (f, here, there) = h.0 in
    (
      (f, same dup (ground (arith, eq_iff dup dup)) ∙ here, there),
      h.1,
      h.2,
      h.3,
      h.4,
      Holds-agree first fs gs es (λ k d. same k (either-right (str_eq dup k) (is_dup k es) d)) h.5,
    )

or-left : (a b : Bool) → (a || b) ≡ false → a ≡ false
or-left true b h = h
or-left false b h = refl

or-right : (a b : Bool) → (a || b) ≡ false → b ≡ false
or-right true b h = absurd (cc h)
or-right false b h = h

either_way : (b : Bool) (o : Option File) → (if b then o else o) ≡ o
either_way true o = refl
either_way false o = refl

other_place :
    (b x y : Bool) (f o : Option File)
    → x ≡ false
    → y ≡ false
    → (if b then o else if x then f else if y then none else o) ≡ o
other_place true x y f o h k = refl
other_place false x y f o h k = rw (h, k) refl

restored_next :
    (first fs : Files) (dup orig k : String) (b c : Bool) (f : File) {now : Option File}
    → lookup orig first ≡ some f
    → str_eq dup k ≡ false
    → now ≡ (
        if b
        then lookup k fs
        else if str_eq orig k
        then some f
        else if str_eq dup k
        then none
        else lookup k fs)
    → (if c then lookup k first else now)
      ≡ (if (str_eq orig k && not b) || c then lookup k first else lookup k fs)
restored_next first fs dup orig k true c f there apart now = elim (Bool-cases (str_eq orig k)) [
  | inl same ↦ rw (now, same) refl
  | inr other ↦ rw (now, other) refl
]
restored_next first fs dup orig k false c f there apart now = elim (Bool-cases (str_eq orig k)) [
  | inl same ↦
      let at_k : lookup k first ≡ some f =
        subst (λ x. lookup x first ≡ some f) ((eq_iff orig k).0 same) there in
      rw (now, same, at_k) (either_way c (some f))
  | inr other ↦ rw (now, other, apart) refl
]

pub lookup-restore :
    (fails : String → String → Bool) (first fs : Files) (es : Map String String) (k : String)
    → Holds first fs es
    → is_dup k es ≡ false
    → lookup k (restore fails es fs)
      ≡ (if is_put_back fails k es then lookup k first else lookup k fs)
unfolding restore
lookup-restore fails first fs [] k h apart = refl
lookup-restore fails first fs ((dup, orig) ∷ es) k h apart =
    let (f, here, there) = h.0 in
    let moved = λ (j : String). lookup-rename fails dup orig j f fs here in
    let rest =
      lookup-restore fails first (rename fails dup orig fs) es k
        (Holds-agree first fs (rename fails dup orig fs) es
          (λ j d.
            moved j
            ∙ other_place (fails dup orig) (str_eq orig j) (str_eq dup j) (some f) (lookup j fs)
                (dup_apart orig j es h.4 d) (dup_apart dup j es h.2 d))
          h.5)
        (or-right (str_eq dup k) (is_dup k es) apart) in
    rest
    ∙ restored_next first fs dup orig k (fails dup orig) (is_put_back fails k es) f there
        (or-left (str_eq dup k) (is_dup k es) apart) (moved k)

-- Where the renames to a file succeed all or fail all, it is put back if they succeed.
pub is_put_back-all :
    (fails : String → String → Bool) (k : String) (can : Bool) (es : Map String String)
    → ((d : String) → fails d k ≡ not can)
    → is_put_back fails k es ≡ (is_orig k es && can)
is_put_back-all fails k can [] h = ground arith
is_put_back-all fails k can ((dup, orig) ∷ es) h = elim (Bool-cases (str_eq orig k)) [
  | inl same ↦
      let at : fails dup orig ≡ not can =
        subst (λ x. fails dup x ≡ not can) (sym ((eq_iff orig k).0 same)) (h dup) in
      rw (same, at, is_put_back-all fails k can es h) (ground arith)
  | inr other ↦ rw (other, is_put_back-all fails k can es h) (ground arith)
]
