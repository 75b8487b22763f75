-- ===== src/Catalog/Persist/Replaced.antt =====
-- What backend/app/catalog/persist.py makes of a semester: the objects that it has at each step, as a
-- function from identities.
use nsysu_crs.Common.{
  ℕ, ◌+◌, Text, ◌≡◌, refl, sym, ap, ◌∙◌, Bool, true, false, ◌||◌, Option, none, some, List, [], ◌∷◌,
  ◌++◌, any, All, All-append, ◌⊎◌, first, arith, Bool-cases, Option-cases, inl, inr,
}
use mathlib.Core.Option.{some-injective}
use nsysu_crs.Catalog.{
  CatalogRow, Course, row_identity, course_identity, row_payload, apply_payload, payload_identity,
}
use nsysu_crs.Catalog.Persist.{
  same_identity, has_identity, change_last, Progress, persist_row, persist_rows,
}
use nsysu_crs.Catalog.Persist.Objects.{
  same_refl, same_eq, object, IsDistinct, IsChanged, Changed, change_last-Changed, no-object,
  object-append, AreApart, append-IsDistinct,
}

abbrev pub seen_in : Progress → List Text → Bool
seen_in p i = any (same_identity i) p.seen

-- The object of an identity while the rows are persisted.
abbrev pub view : Progress → List Text → Option Course
view p i = object i (p.existing ++ p.added)

found_left :
    (i : List Text) (xs ys : List Course) (c : Course)
    → object i xs ≡ some c
    → object i (xs ++ ys) ≡ some c
found_left i xs ys c h = object-append i xs ys ∙ rw h refl

missed_left :
    (i : List Text) (xs ys : List Course)
    → any (has_identity i) xs ≡ false
    → object i (xs ++ ys) ≡ object i ys
missed_left i xs ys h = object-append i xs ys ∙ rw (no-object i xs h) refl

object-snoc_other :
    (i : List Text) (xs : List Course) (c : Course)
    → has_identity i c ≡ false
    → object i (xs ++ (c ∷ [])) ≡ object i xs
object-snoc_other i [] c h = rw h refl
object-snoc_other i (x ∷ xs) c h = ground (arith, object-snoc_other i xs c h)

same_right :
    (i : List Text) (xs ys zs : List Course)
    → object i ys ≡ object i zs
    → object i (xs ++ ys) ≡ object i (xs ++ zs)
same_right i [] ys zs h = h
same_right i (x ∷ xs) ys zs h = ground (arith, same_right i xs ys zs h)

apart_kept :
    (xs xs' ys : List Course)
    → ((i : List Text) → any (has_identity i) xs' ≡ any (has_identity i) xs)
    → AreApart xs ys
    → AreApart xs' ys
apart_kept xs xs' [] k h = tt
apart_kept xs xs' (y ∷ ys) k h = (k (course_identity y) ∙ h.0, apart_kept xs xs' ys k h.1)

-- The identities of the objects are among the given ones.
abbrev pub AreNoted : List (List Text) → List Course → Type 0
AreNoted seen courses =
    All (λ (c : Course). any (same_identity (course_identity c)) seen ≡ true) courses

noted_more :
    (i : List Text) (seen : List (List Text)) (courses : List Course)
    → AreNoted seen courses
    → AreNoted (i ∷ seen) courses
noted_more i seen [] h = tt
noted_more i seen (c ∷ courses) h = (ground (arith, h.0), noted_more i seen courses h.1)

pub unseen :
    (i : List Text) (seen : List (List Text)) (courses : List Course)
    → AreNoted seen courses
    → any (same_identity i) seen ≡ false
    → any (has_identity i) courses ≡ false
unseen i seen [] h f = refl
unseen i seen (c ∷ courses) h f = elim (Bool-cases (has_identity i c)) [
  | inl e ↦ absurd (cc (h.0, rw (same_eq i (course_identity c) e) at f))
  | inr e ↦ rw e (unseen i seen courses h.1 f)
]

pub record IsSound (p : Progress) : Type 0 where
  pub existing : IsDistinct p.existing
  pub added : IsDistinct p.added
  pub apart : AreApart p.existing p.added
  pub noted : AreNoted p.seen p.added

-- The object keeps its identifier.
abbrev pub Keeps : Option Course → ℕ → Type 0
Keeps before id = (old : Course) → before ≡ some old → id ≡ old.id

record IsStored (now : ℕ) (row : CatalogRow) (p p' : Progress) : Type 0 where
  id : ℕ
  stored : view p' (row_identity row) ≡ some (row_payload id now row)
  same_id : Keeps (view p (row_identity row)) id
  others : (i : List Text) → same_identity i (row_identity row) ≡ false → view p' i ≡ view p i
  noted : (i : List Text) → seen_in p' i ≡ same_identity i (row_identity row) || seen_in p i
  sound : IsSound p'

applied :
    (now : ℕ) (row : CatalogRow) (c : Course) → apply_payload now row c ≡ row_payload c.id now row
unfolding apply_payload
applied now row c = refl

updated :
    (now : ℕ) (row : CatalogRow) (p : Progress) (existing : List Course)
    → IsSound p
    → IsChanged (row_identity row) (apply_payload now row) p.existing existing
    → IsStored now row p (record p {
      seen = row_identity row ∷ p.seen;
      existing = existing;
      updated = p.updated + 1;
    })
updated now row p existing s h = record {
  id = h.found.id;
  stored =
      found_left (row_identity row) existing p.added _ h.after ∙ ap some (applied now row h.found);
  same_id = λ old e.
      ap (λ (c : Course). c.id)
        (some-injective h.found old
          (sym (found_left (row_identity row) p.existing p.added h.found h.before) ∙ e));
  others = λ i e.
      object-append i existing p.added
      ∙ rw (h.others i e) (sym (object-append i p.existing p.added));
  noted = λ i. refl;
  sound = record {
    existing = h.distinct;
    added = s.added;
    apart = apart_kept p.existing existing p.added h.kept s.apart;
    noted = noted_more (row_identity row) p.seen p.added s.noted;
  };
}

inserted :
    (now : ℕ) (row : CatalogRow) (p : Progress)
    → IsSound p
    → any (has_identity (row_identity row)) p.existing ≡ false
    → seen_in p (row_identity row) ≡ false
    → IsStored now row p (record p {
      seen = row_identity row ∷ p.seen;
      added = p.added ++ (row_payload p.next_id now row ∷ []);
      next_id = p.next_id + 1;
      inserted = p.inserted + 1;
    })
inserted now row p s h f =
    let i = row_identity row in
    let course = row_payload p.next_id now row in
    let new = unseen i p.seen p.added s.noted f in
    let same : course_identity course ≡ i = payload_identity p.next_id now row in
    record {
      id = p.next_id;
      stored =
          missed_left i p.existing (p.added ++ (course ∷ [])) h
          ∙ (missed_left i p.added (course ∷ []) new ∙ rw (same, same_refl i) refl);
      same_id = λ old e. cc (missed_left i p.existing p.added h, no-object i p.added new, e);
      others = λ j e.
          let other : has_identity j course ≡ false = rw same e in
          same_right j p.existing (p.added ++ (course ∷ [])) p.added
            (object-snoc_other j p.added course other);
      noted = λ j. refl;
      sound = record {
        existing = s.existing;
        added = append-IsDistinct p.added (course ∷ []) s.added (refl, tt) (rw same new, tt);
        apart = All-append _ p.added (course ∷ []) s.apart (rw same h, tt);
        noted =
            All-append _ p.added (course ∷ []) (noted_more i p.seen p.added s.noted)
              (rw (same, same_refl i) refl, tt);
      };
    }

-- A row whose identity was seen changes nothing that is read; any other one is stored.
abbrev Persisted : ℕ → CatalogRow → Progress → Progress → Type 0
Persisted now row p p' =
    ((seen_in p (row_identity row) ≡ true)
      × ((i : List Text) → view p' i ≡ view p i)
      × ((i : List Text) → seen_in p' i ≡ seen_in p i)
      × IsSound p')
    ⊎ ((seen_in p (row_identity row) ≡ false) × IsStored now row p p')

persist_row-Persisted :
    (now : ℕ) (row : CatalogRow) (p : Progress)
    → IsSound p
    → Persisted now row p (persist_row now row p)
unfolding persist_row
persist_row-Persisted now row p s =
    let i = row_identity row in
    let same : (c : Course)
        → same_identity i (course_identity c) ≡ true
        → course_identity (apply_payload now row c) ≡ course_identity c =
      λ c e.
        ap course_identity (applied now row c)
        ∙ (payload_identity c.id now row ∙ same_eq i (course_identity c) e) in
    let changed = change_last-Changed i (apply_payload now row) p.existing same s.existing in
    elim (Bool-cases (any (same_identity i) p.seen)) [
      | inl e ↦
          rw (e, persist_row)
            (inl (
              refl,
              λ j. refl,
              λ j. refl,
              record { existing = s.existing; added = s.added; apart = s.apart; noted = s.noted },
            ))
      | inr e ↦
          elim (Option-cases (change_last (has_identity i) (apply_payload now row) p.existing)) [
            | inl f ↦
                let free : Changed i (apply_payload now row) p.existing none = rw f at changed in
                rw (e, persist_row, f) (inr (refl, inserted now row p s free e))
            | inr (existing, f) ↦
                let found : Changed i (apply_payload now row) p.existing (some existing) =
                  rw f at changed in
                rw (e, persist_row, f) (inr (refl, updated now row p existing s found))
          ]
    ]

-- The first row with an identity.
abbrev pub first_row : List Text → List CatalogRow → Option CatalogRow
first_row i rows = first (λ (row : CatalogRow). same_identity i (row_identity row)) rows

-- What the loop leaves of an identity: what was there, if it was seen before or no row has it, and
-- else the first row with it.
pub record IsLeft (now : ℕ) (i : List Text) (rows : List CatalogRow) (p p' : Progress)
    : Type 0 where
  pub old : seen_in p i ≡ true → (view p' i ≡ view p i) × (seen_in p' i ≡ true)
  pub absent : seen_in p i ≡ false → first_row i rows ≡ none → seen_in p' i ≡ false
  pub fresh :
      seen_in p i ≡ false
      → (row : CatalogRow) → first_row i rows ≡ some row
      → (id : ℕ) × (view p' i ≡ some (row_payload id now row))
        × Keeps (view p i) id
        × (seen_in p' i ≡ true)

differ :
    (i j : List Text) (p : Progress)
    → seen_in p i ≡ true
    → seen_in p j ≡ false
    → same_identity j i ≡ false
differ i j p e f = elim (Bool-cases (same_identity j i)) [
  | inr g ↦ g
  | inl g ↦ absurd (cc (e, rw (same_eq j i g) at f))
]

same_differ :
    (i j : List Text) (p : Progress)
    → seen_in p i ≡ false
    → seen_in p j ≡ true
    → same_identity j i ≡ false
same_differ i j p e f = elim (Bool-cases (same_identity j i)) [
  | inr g ↦ g
  | inl g ↦ absurd (cc (e, rw (same_eq j i g) at f))
]

-- A skipped row, and then the others.
IsLeft-skipped :
    (now : ℕ) (i : List Text) (row : CatalogRow) (rows : List CatalogRow) (p p1 p' : Progress)
    → seen_in p (row_identity row) ≡ true
    → view p1 i ≡ view p i
    → seen_in p1 i ≡ seen_in p i
    → IsLeft now i rows p1 p'
    → IsLeft now i (row ∷ rows) p p'
IsLeft-skipped now i row rows p p1 p' e same seen left = record {
  old = λ f. let (a, b) = left.old (seen ∙ f) in (a ∙ same, b);
  absent = λ f g.
      let other = differ (row_identity row) i p e f in left.absent (seen ∙ f) (rw other at g);
  fresh = λ f r g.
      let other = differ (row_identity row) i p e f in
      let (id, a, b, c) = left.fresh (seen ∙ f) r (rw other at g) in
      (id, a, (λ old h. b old (same ∙ h)), c);
}

-- A stored row, and then the others.
IsLeft-stored :
    (now : ℕ) (i : List Text) (row : CatalogRow) (rows : List CatalogRow) (p p1 p' : Progress)
    → seen_in p (row_identity row) ≡ false
    → IsStored now row p p1
    → IsLeft now i rows p1 p'
    → IsLeft now i (row ∷ rows) p p'
IsLeft-stored now i row rows p p1 p' e st left = record {
  old = λ f.
      let other = same_differ (row_identity row) i p e f in
      let (a, b) = left.old (st.noted i ∙ rw (other, f) refl) in (a ∙ st.others i other, b);
  absent = λ f g. elim (Bool-cases (same_identity i (row_identity row))) [
    | inl h ↦ absurd (cc (rw h at g))
    | inr h ↦ left.absent (st.noted i ∙ rw (h, f) refl) (rw h at g)
  ];
  fresh = λ f r g. elim (Bool-cases (same_identity i (row_identity row))) [
    | inr h ↦
        let (id, a, b, c) = left.fresh (st.noted i ∙ rw (h, f) refl) r (rw h at g) in
        (id, a, (λ old k. b old (st.others i h ∙ k)), c)
    | inl h ↦
        let here : i ≡ row_identity row = same_eq i (row_identity row) h in
        let (a, b) = left.old (st.noted i ∙ rw h refl) in
        let this : row ≡ r = some-injective row r (rw h at g) in
        (st.id, rw (← this) (a ∙ rw here st.stored), (λ old k. st.same_id old (rw here at k)), b)
  ];
}

pub persist_rows-IsLeft :
    (now : ℕ) (rows : List CatalogRow) (p : Progress)
    → IsSound p
    → IsSound (persist_rows now rows p)
      × ((i : List Text) → IsLeft now i rows p (persist_rows now rows p))
unfolding persist_rows
persist_rows-IsLeft now [] p s =
    (s, λ i. record { old = λ e. (refl, e); absent = λ e f. e; fresh = λ e row f. cc })
persist_rows-IsLeft now (row ∷ rows) p s = elim (persist_row-Persisted now row p s) [
  | inl (e, same, seen, sound) ↦
      let (end, left) = persist_rows-IsLeft now rows (persist_row now row p) sound in
      (end, λ i. IsLeft-skipped now i row rows p _ _ e (same i) (seen i) (left i))
  | inr (e, st) ↦
      let (end, left) = persist_rows-IsLeft now rows (persist_row now row p) st.sound in
      (end, λ i. IsLeft-stored now i row rows p _ _ e st (left i))
]
