-- ===== src/Catalog/Persist/Objects.antt =====
-- The lists of objects that persist.py works on, as functions from identities.
use nsysu_crs.Common.{
  Text, text_eq_iff, text_eq_refl, ◌≡◌, refl, ◌∙◌, Bool, true, false, Option, none, some, List, [],
  ◌∷◌, ◌++◌, keep, any, All, ◌||◌, first, arith, Bool-cases, Option-cases, inl, inr,
}
use nsysu_crs.Catalog.{Course, course_identity}
use nsysu_crs.Catalog.Persist.{same_identity, has_identity, change_last}

pub same_refl : (i : List Text) → same_identity i i ≡ true
unfolding same_identity
same_refl [] = refl
same_refl (t ∷ i) = rw (text_eq_refl t) (same_refl i)

pub same_eq : (i j : List Text) → same_identity i j ≡ true → i ≡ j
unfolding same_identity
same_eq [] [] h = refl
same_eq [] (t ∷ j) h = cc
same_eq (t ∷ i) [] h = cc
same_eq (t ∷ i) (u ∷ j) h =
    let head : t ≡ u = ground (arith, text_eq_iff t u) in
    let tail : i ≡ j = same_eq i j (ground arith) in rw (head, tail) refl

-- The object of an identity in a list, the first of them.
abbrev pub object : List Text → List Course → Option Course
object i courses = first (has_identity i) courses

-- No two objects have one identity.
abbrev pub IsDistinct : List Course → Type 0
IsDistinct [] = Unit
IsDistinct (c ∷ courses) =
    (any (has_identity (course_identity c)) courses ≡ false) × IsDistinct courses

-- Where the changed object of an identity was.
pub record IsChanged (i : List Text) (change : Course → Course) (courses courses' : List Course)
    : Type 0 where
  pub found : Course
  pub before : object i courses ≡ some found
  pub after : object i courses' ≡ some (change found)
  pub others : (j : List Text) → same_identity j i ≡ false → object j courses' ≡ object j courses
  pub kept : (j : List Text) → any (has_identity j) courses' ≡ any (has_identity j) courses
  pub distinct : IsDistinct courses'

-- What `change_last` gives: nothing where no object has the identity, else the list with its object
-- changed.
abbrev pub Changed : List Text → (Course → Course) → List Course → Option (List Course) → Type 0
Changed i change courses none = any (has_identity i) courses ≡ false
Changed i change courses (some courses') = IsChanged i change courses courses'

any-object :
    (i : List Text) (courses : List Course) (c : Course)
    → object i courses ≡ some c
    → any (has_identity i) courses ≡ true
any-object i [] c h = cc
any-object i (d ∷ courses) c h = elim (Bool-cases (has_identity i d)) [
  | inl e ↦ rw e refl
  | inr e ↦ rw e (any-object i courses c (rw e at h))
]

IsChanged-cons :
    (i : List Text) (change : Course → Course) (c : Course) (courses courses' : List Course)
    → any (has_identity (course_identity c)) courses ≡ false
    → IsChanged i change courses courses'
    → IsChanged i change (c ∷ courses) (c ∷ courses')
IsChanged-cons i change c courses courses' free h = elim (Bool-cases (has_identity i c)) [
  | inl e ↦
      let taken = any-object i courses h.found h.before in
      let empty : any (has_identity i) courses ≡ false =
        rw (same_eq i (course_identity c) e) free in
      absurd (cc (taken, empty))
  | inr e ↦ record {
    found = h.found;
    before = rw e h.before;
    after = rw e h.after;
    others = λ j f. ground (arith, h.others j f);
    kept = λ j. ground (arith, h.kept j);
    distinct = (h.kept (course_identity c) ∙ free, h.distinct);
  }
]

IsChanged-here :
    (i : List Text) (change : Course → Course) (c : Course) (courses : List Course)
    → same_identity i (course_identity c) ≡ true
    → course_identity (change c) ≡ course_identity c
    → IsDistinct (c ∷ courses)
    → IsChanged i change (c ∷ courses) (change c ∷ courses)
IsChanged-here i change c courses e k d =
    let same : i ≡ course_identity c = same_eq i (course_identity c) e in
    record {
      found = c;
      before = rw e refl;
      after = rw (k, e) refl;
      others = λ j f.
          let other : same_identity j (course_identity c) ≡ false = rw (← same) f in
          rw (k, other) refl;
      kept = λ j. rw k refl;
      distinct = (rw k d.0, d.1);
    }

pub change_last-Changed :
    (i : List Text) (change : Course → Course) (courses : List Course)
    → ((c : Course)
        → same_identity i (course_identity c) ≡ true
        → course_identity (change c) ≡ course_identity c)
    → IsDistinct courses
    → Changed i change courses (change_last (has_identity i) change courses)
unfolding change_last
change_last-Changed i change [] k d = refl
change_last-Changed i change (c ∷ courses) k d =
    let h = change_last-Changed i change courses k d.1 in
    elim (Option-cases (change_last (has_identity i) change courses)) [
      | inr (courses', e) ↦
          let h' : Changed i change courses (some courses') = rw e at h in
          rw (e, change_last) (IsChanged-cons i change c courses courses' d.0 h')
      | inl e ↦
          let h' : Changed i change courses none = rw e at h in
          elim (Bool-cases (has_identity i c)) [
            | inl f ↦ rw (e, change_last, f) (IsChanged-here i change c courses f (k c f) d)
            | inr f ↦ rw (e, change_last, f) (rw f h')
          ]
    ]

pub no-object :
    (i : List Text) (courses : List Course)
    → any (has_identity i) courses ≡ false
    → object i courses ≡ none
no-object i [] h = refl
no-object i (c ∷ courses) h = elim (Bool-cases (has_identity i c)) [
  | inl e ↦ cc (rw e at h)
  | inr e ↦ rw e (no-object i courses (rw e at h))
]

pub object-append :
    (i : List Text) (xs ys : List Course)
    → object i (xs ++ ys)
      ≡ elim (object i xs) as (λ _. Option Course) [ none ↦ object i ys | some c ↦ some c ]
object-append i [] ys = refl
object-append i (x ∷ xs) ys = elim (Bool-cases (has_identity i x)) [
  | inl e ↦ rw e refl
  | inr e ↦ rw e (object-append i xs ys)
]

pub any-append :
    (test : Course → Bool) (xs ys : List Course) → any test (xs ++ ys) ≡ any test xs || any test ys
any-append test [] ys = refl
any-append test (x ∷ xs) ys = ground (arith, any-append test xs ys)

same_sym : (i j : List Text) → same_identity i j ≡ false → same_identity j i ≡ false
same_sym i j h = elim (Bool-cases (same_identity j i)) [
  | inr e ↦ e
  | inl e ↦ absurd (cc (same_refl i, rw (same_eq j i e) at h))
]

-- No object of the list has an identity of the other list.
abbrev pub AreApart : List Course → List Course → Type 0
AreApart xs ys = All (λ (y : Course). any (has_identity (course_identity y)) xs ≡ false) ys

apart_head :
    (x : Course) (xs ys : List Course)
    → AreApart (x ∷ xs) ys
    → (any (has_identity (course_identity x)) ys ≡ false) × AreApart xs ys
apart_head x xs [] h = (refl, tt)
apart_head x xs (y ∷ ys) (e, h) =
    let (f, g) = apart_head x xs ys h in
    (ground (arith, same_sym (course_identity y) (course_identity x)), (ground arith, g))

-- Distinct lists that are apart make a distinct list.
pub append-IsDistinct :
    (xs ys : List Course) → IsDistinct xs → IsDistinct ys → AreApart xs ys → IsDistinct (xs ++ ys)
append-IsDistinct [] ys dx dy h = dy
append-IsDistinct (x ∷ xs) ys dx dy h =
    let (e, f) = apart_head x xs ys h in
    (
      ground (arith, any-append (has_identity (course_identity x)) xs ys),
      append-IsDistinct xs ys dx.1 dy f,
    )

keep-any :
    (i : List Text) (test : Course → Bool) (xs : List Course)
    → any (has_identity i) xs ≡ false
    → any (has_identity i) (keep test xs) ≡ false
keep-any i test [] h = refl
keep-any i test (x ∷ xs) h = ground (arith, keep-any i test xs)

pub keep-IsDistinct :
    (test : Course → Bool) (xs : List Course) → IsDistinct xs → IsDistinct (keep test xs)
keep-IsDistinct test [] d = tt
keep-IsDistinct test (x ∷ xs) d = elim (Bool-cases (test x)) [
  | inl e ↦ rw e (keep-any (course_identity x) test xs d.0, keep-IsDistinct test xs d.1)
  | inr e ↦ rw e (keep-IsDistinct test xs d.1)
]

pub keep-AreApart :
    (test : Course → Bool) (xs ys : List Course) → AreApart xs ys → AreApart (keep test xs) ys
keep-AreApart test xs [] h = tt
keep-AreApart test xs (y ∷ ys) h =
    (keep-any (course_identity y) test xs h.0, keep-AreApart test xs ys h.1)
