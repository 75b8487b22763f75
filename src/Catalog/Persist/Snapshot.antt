-- ===== src/Catalog/Persist/Snapshot.antt =====
-- `replace_year_sem_snapshot` of backend/app/catalog/persist.py, against the table as a function from
-- identities to courses.
use nsysu_crs.Common.{
  ℕ, Text, text_eq, ◌≡◌, refl, sym, ap, ◌∙◌, Bool, true, false, not, Option, none, some, List, [],
  ◌∷◌, ◌++◌, keep, append-nil, any, All, All-append, arith, Bool-cases, Option-cases, inl, inr,
}
use nsysu_crs.Catalog.{
  CatalogRow, Course, course_identity, row_payload, apply_payload, row_identity,
}
use nsysu_crs.Catalog.Persist.{
  same_identity, has_identity, change_last, Progress, persist_row, persist_rows, CatalogDb, in_sem,
  is_kept, begin, replace_year_sem_snapshot,
}
use nsysu_crs.Catalog.Persist.Objects.{
  same_eq, object, IsDistinct, no-object, object-append, append-IsDistinct, keep-IsDistinct,
  keep-AreApart,
}
use nsysu_crs.Catalog.Persist.Replaced.{unseen, persist_rows-IsLeft, seen_in, Keeps, first_row}

-- The courses of a semester, and the others.
abbrev pub snapshot : Text → CatalogDb → List Course
snapshot year_sem db = keep (in_sem year_sem) db.courses

abbrev pub elsewhere : Text → CatalogDb → List Course
elsewhere year_sem db = keep (λ c. not (in_sem year_sem c)) db.courses

keep-append :
    (test : Course → Bool) (xs ys : List Course)
    → keep test (xs ++ ys) ≡ keep test xs ++ keep test ys
keep-append test [] ys = refl
keep-append test (x ∷ xs) ys = ground (arith, keep-append test xs ys)

keep-keep : (test : Course → Bool) (xs : List Course) → keep test (keep test xs) ≡ keep test xs
keep-keep test [] = refl
keep-keep test (x ∷ xs) = ground (arith, keep-keep test xs)

keep-others :
    (test : Course → Bool) (xs : List Course) → keep test (keep (λ c. not (test c)) xs) ≡ []
keep-others test [] = refl
keep-others test (x ∷ xs) = ground (arith, keep-others test xs)

abbrev AreIn : Text → List Course → Type 0
AreIn year_sem courses = All (λ (c : Course). in_sem year_sem c ≡ true) courses

keep_in : (year_sem : Text) (xs : List Course) → AreIn year_sem xs → keep (in_sem year_sem) xs ≡ xs
keep_in year_sem [] h = refl
keep_in year_sem (x ∷ xs) h = rw h.0 (ap (λ ys. x ∷ ys) (keep_in year_sem xs h.1))

keep_out :
    (year_sem : Text) (xs : List Course)
    → AreIn year_sem xs
    → keep (λ c. not (in_sem year_sem c)) xs ≡ []
keep_out year_sem [] h = refl
keep_out year_sem (x ∷ xs) h = rw h.0 (keep_out year_sem xs h.1)

keep-AreIn :
    (year_sem : Text) (test : Course → Bool) (xs : List Course)
    → AreIn year_sem xs
    → AreIn year_sem (keep test xs)
keep-AreIn year_sem test [] h = tt
keep-AreIn year_sem test (x ∷ xs) h = elim (Bool-cases (test x)) [
  | inl e ↦ rw e (h.0, keep-AreIn year_sem test xs h.1)
  | inr e ↦ rw e (keep-AreIn year_sem test xs h.1)
]

snapshot-AreIn : (year_sem : Text) (xs : List Course) → AreIn year_sem (keep (in_sem year_sem) xs)
snapshot-AreIn year_sem [] = tt
snapshot-AreIn year_sem (x ∷ xs) = elim (Bool-cases (in_sem year_sem x)) [
  | inl e ↦ rw e (e, snapshot-AreIn year_sem xs)
  | inr e ↦ rw e (snapshot-AreIn year_sem xs)
]

-- The objects stay in the semester of the rows.
AreStill : Text → Option (List Course) → Type 0
AreStill year_sem none = Unit
AreStill year_sem (some courses) = AreIn year_sem courses

change_last-AreStill :
    (year_sem : Text) (test : Course → Bool) (change : Course → Course) (courses : List Course)
    → ((c : Course) → in_sem year_sem (change c) ≡ true)
    → AreIn year_sem courses
    → AreStill year_sem (change_last test change courses)
unfolding change_last AreStill
change_last-AreStill year_sem test change [] k h = tt
change_last-AreStill year_sem test change (c ∷ courses) k h =
    let later = change_last-AreStill year_sem test change courses k h.1 in
    elim (Option-cases (change_last test change courses)) [
      | inr (cs, e) ↦
          let later' : AreStill year_sem (some cs) = rw e at later in
          rw (e, change_last) (h.0, later')
      | inl e ↦ elim (Bool-cases (test c)) [
        | inl f ↦ rw (e, change_last, f) (k c, h.1)
        | inr f ↦ rw (e, change_last, f) tt
      ]
    ]

AreBoth : Text → Progress → Type 0
AreBoth year_sem p = AreIn year_sem p.existing × AreIn year_sem p.added

persist_row-AreBoth :
    (year_sem : Text) (now : ℕ) (row : CatalogRow) (p : Progress)
    → text_eq row.year_sem year_sem ≡ true
    → AreBoth year_sem p
    → AreBoth year_sem (persist_row now row p)
unfolding persist_row AreBoth row_payload apply_payload
persist_row-AreBoth year_sem now row p y h =
    let i = row_identity row in
    let still =
      change_last-AreStill year_sem (has_identity i) (apply_payload now row) p.existing (λ c. y)
        h.0 in
    elim (Bool-cases (any (same_identity i) p.seen)) [
      | inl e ↦ rw (e, persist_row) h
      | inr e ↦
          elim (Option-cases (change_last (has_identity i) (apply_payload now row) p.existing)) [
            | inl f ↦ rw (e, persist_row, f) (h.0, All-append _ p.added _ h.1 (y, tt))
            | inr (cs, f) ↦
                let there : AreIn year_sem cs = unfold AreStill in rw f at still in
                rw (e, persist_row, f) (there, h.1)
          ]
    ]

persist_rows-AreBoth :
    (year_sem : Text) (now : ℕ) (rows : List CatalogRow) (p : Progress)
    → All (λ (row : CatalogRow). text_eq row.year_sem year_sem ≡ true) rows
    → AreBoth year_sem p
    → AreBoth year_sem (persist_rows now rows p)
unfolding persist_rows
persist_rows-AreBoth year_sem now [] p y h = h
persist_rows-AreBoth year_sem now (row ∷ rows) p y h =
    persist_rows-AreBoth year_sem now rows (persist_row now row p) y.1
      (persist_row-AreBoth year_sem now row p y.0 h)

kept_seen :
    (p : Progress) (i : List Text) (xs : List Course)
    → seen_in p i ≡ true
    → object i (keep (is_kept p) xs) ≡ object i xs
kept_seen p i [] e = refl
kept_seen p i (x ∷ xs) e = elim (Bool-cases (has_identity i x)) [
  | inl f ↦
      let known : is_kept p x ≡ true = rw (same_eq i (course_identity x) f) at e in
      rw (known, f) refl
  | inr f ↦ elim (Bool-cases (is_kept p x)) [
    | inl g ↦ rw (g, f) (kept_seen p i xs e)
    | inr g ↦ rw (g, f) (kept_seen p i xs e)
  ]
]

kept_unseen :
    (p : Progress) (i : List Text) (xs : List Course)
    → seen_in p i ≡ false
    → any (has_identity i) (keep (is_kept p) xs) ≡ false
kept_unseen p i [] e = refl
kept_unseen p i (x ∷ xs) e = elim (Bool-cases (is_kept p x)) [
  | inr g ↦ rw g (kept_unseen p i xs e)
  | inl g ↦ elim (Bool-cases (has_identity i x)) [
    | inl f ↦ absurd (cc (g, rw (same_eq i (course_identity x) f) at e))
    | inr f ↦ rw (g, f) (kept_unseen p i xs e)
  ]
]

object-left :
    (i : List Text) (xs xs' ys : List Course)
    → object i xs ≡ object i xs'
    → object i (xs ++ ys) ≡ object i (xs' ++ ys)
object-left i xs xs' ys h = object-append i xs ys ∙ (rw h refl ∙ sym (object-append i xs' ys))

-- What a semester's scrape says of an identity, and the table afterwards.
pub record IsReplaced (rows : List CatalogRow) (db db' : CatalogDb) (year_sem : Text)
    (i : List Text) : Type 0 where
  pub gone : first_row i rows ≡ none → object i (snapshot year_sem db') ≡ none
  pub there :
      (row : CatalogRow)
      → first_row i rows ≡ some row
      → (id : ℕ) × (object i (snapshot year_sem db') ≡ some (row_payload id db.now row))
        × Keeps (object i (snapshot year_sem db)) id

module _ (year_sem : Text) (rows : List CatalogRow) (db : CatalogDb) where
  abbrev finish : Progress
  finish = persist_rows db.now rows (begin year_sem db)

  abbrev after : CatalogDb
  after = (replace_year_sem_snapshot year_sem rows db).1

  both :
      All (λ (row : CatalogRow). text_eq row.year_sem year_sem ≡ true) rows
      → AreBoth year_sem finish
  unfolding AreBoth
  both y =
      persist_rows-AreBoth year_sem db.now rows (begin year_sem db) y
        (snapshot-AreIn year_sem db.courses, tt)

  new_snapshot :
      All (λ (row : CatalogRow). text_eq row.year_sem year_sem ≡ true) rows
      → (snapshot year_sem after ≡ keep (is_kept finish) finish.existing ++ finish.added)
        × (elsewhere year_sem after ≡ elsewhere year_sem db)
  unfolding replace_year_sem_snapshot AreBoth
  new_snapshot y =
      let (e, a) = both y in
      let kept = keep-AreIn year_sem (is_kept finish) finish.existing e in
      let now = keep (is_kept finish) finish.existing ++ finish.added in
      let here = All-append _ (keep (is_kept finish) finish.existing) finish.added kept a in
      let is_other : Course → Bool = λ c. not (in_sem year_sem c) in
      (
        keep-append (in_sem year_sem) (keep is_other db.courses) now
            ∙ rw (keep-others (in_sem year_sem) db.courses) (keep_in year_sem now here),
        keep-append is_other (keep is_other db.courses) now
            ∙ rw (keep-keep is_other db.courses, keep_out year_sem now here)
                (append-nil (keep is_other db.courses)),
      )

  -- The rows are of the semester, and no two of its courses have one identity. Afterwards the other
  -- semesters are as they were, and again no two courses of the semester have one identity; an
  -- identity that no row has is gone; and the course of any other identity is made of the first row
  -- with it, under the identifier that it had before, if it was there.
  pub replace_year_sem_snapshot_lem :
      IsDistinct (snapshot year_sem db)
      → All (λ (row : CatalogRow). text_eq row.year_sem year_sem ≡ true) rows
      → let db' = (replace_year_sem_snapshot year_sem rows db).1 in
        (elsewhere year_sem db' ≡ elsewhere year_sem db)
        × IsDistinct (snapshot year_sem db')
        × ((i : List Text) → IsReplaced rows db db' year_sem i)
  replace_year_sem_snapshot_lem d y =
      let p = begin year_sem db in
      let (sound, left) =
        persist_rows-IsLeft db.now rows p
          (record { existing = d; added = tt; apart = tt; noted = tt }) in
      let (is_now, others) = new_snapshot y in
      let E = keep (is_kept finish) finish.existing in
      (
        others,
        rw is_now (
            append-IsDistinct E finish.added
              (keep-IsDistinct (is_kept finish) finish.existing sound.existing) sound.added
              (keep-AreApart (is_kept finish) finish.existing finish.added sound.apart)),
        λ i. record {
          gone = λ f.
              let lost = (left i).absent refl f in
              rw is_now (
                object-append i E finish.added
                ∙ rw (no-object i E (kept_unseen finish i finish.existing lost)) (
                    no-object i finish.added (unseen i finish.seen finish.added sound.noted lost)));
          there = λ row f.
              let (id, a, b, c) = (left i).fresh refl row f in
              (
                id,
                rw is_now (
                    object-left i E finish.existing finish.added
                      (kept_seen finish i finish.existing c)
                    ∙ a),
                λ old g. b old (ap (object i) (append-nil (snapshot year_sem db)) ∙ g),
              );
        },
      )
