-- ===== src/Catalog/Persist.antt =====
-- backend/app/catalog/persist.py: the snapshot of a semester, and the ledger of the ingest runs. The
-- objects of the semester are a list of their own while they are worked on, and so are the added ones.
pub mod Objects
pub mod Replaced
pub mod Snapshot
use nsysu_crs.Common.{
  ℕ, ◌+◌, Text, text_eq, Bool, true, false, not, ◌&&◌, Option, none, some, List, [], ◌∷◌, ◌++◌, any,
  keep, length, take, if◌then◌else◌, ◌==◌,
}
use nsysu_crs.Catalog.{
  CatalogRow, Course, row_identity, course_identity, row_payload, apply_payload,
}

-- _ERROR_MAX_CHARS
abbrev pub error_max_chars : ℕ
error_max_chars = 4000

-- Equality of identities.
unfoldable pub same_identity : List Text → List Text → Bool
same_identity [] [] = true
same_identity [] (t ∷ ts) = false
same_identity (t ∷ ts) [] = false
same_identity (t ∷ ts) (u ∷ us) = text_eq t u && same_identity ts us

abbrev pub has_identity : List Text → Course → Bool
has_identity i course = same_identity i (course_identity course)

-- The dicts hold the objects, and of one key the last: the target that `coded` or `uncoded` gives is
-- changed in place. `none` is a key that is not there.
unfoldable pub change_last :
    (Course → Bool) → (Course → Course) → List Course → Option (List Course)
change_last test change [] = none
change_last test change (c ∷ courses) = elim (change_last test change courses) [
  | some courses' ↦ some (c ∷ courses')
  | none ↦ if test c then some (change c ∷ courses) else none
]

pub record Progress : Type 0 where
  pub seen : List (List Text)
  pub existing : List Course
  pub added : List Course
  pub next_id : ℕ
  pub updated : ℕ
  pub inserted : ℕ
  pub dedup_skipped : ℕ

unfoldable pub persist_row : ℕ → CatalogRow → Progress → Progress
persist_row now row p =
    let i = row_identity row in
    if any (same_identity i) p.seen
    then record p { dedup_skipped = p.dedup_skipped + 1 }
    else elim (change_last (has_identity i) (apply_payload now row) p.existing) [
      | some existing ↦ record p { seen = i ∷ p.seen; existing = existing; updated = p.updated + 1 }
      | none ↦ record p {
        seen = i ∷ p.seen;
        added = p.added ++ (row_payload p.next_id now row ∷ []);
        next_id = p.next_id + 1;
        inserted = p.inserted + 1;
      }
    ]

unfoldable pub persist_rows : ℕ → List CatalogRow → Progress → Progress
persist_rows now [] p = p
persist_rows now (row ∷ rows) p = persist_rows now rows (persist_row now row p)

-- The tables of the catalog.
pub record IngestRun : Type 0 where
  pub id : ℕ
  pub started_at : ℕ
  pub finished_at : Option ℕ
  pub is_ok : Bool
  pub rows : Option ℕ
  pub error : Option Text

pub record CatalogDb : Type 0 where
  pub courses : List Course
  pub runs : List IngestRun
  pub next_course : ℕ
  pub next_run : ℕ
  pub now : ℕ

pub record PersistOutcome : Type 0 where
  pub rows_stored : ℕ
  pub rows_updated : ℕ
  pub rows_inserted : ℕ
  pub rows_deleted : ℕ
  pub dedup_skipped : ℕ

abbrev pub in_sem : Text → Course → Bool
in_sem year_sem course = text_eq course.year_sem year_sem

-- `course.code in kept_codes`, or its fallback key in `kept_fallbacks`.
abbrev pub is_kept : Progress → Course → Bool
is_kept p course = any (same_identity (course_identity course)) p.seen

abbrev pub begin : Text → CatalogDb → Progress
begin year_sem db = record {
  seen = [];
  existing = keep (in_sem year_sem) db.courses;
  added = [];
  next_id = db.next_course;
  updated = 0;
  inserted = 0;
  dedup_skipped = 0;
}

unfoldable pub replace_year_sem_snapshot :
    Text → List CatalogRow → CatalogDb → PersistOutcome × CatalogDb
replace_year_sem_snapshot year_sem rows db =
    let p = persist_rows db.now rows (begin year_sem db) in
    (
      record {
        rows_stored = p.updated + p.inserted;
        rows_updated = p.updated;
        rows_inserted = p.inserted;
        rows_deleted = length (keep (λ c. not (is_kept p c)) p.existing);
        dedup_skipped = p.dedup_skipped;
      },
      record db {
        courses =
            keep (λ c. not (in_sem year_sem c)) db.courses
            ++ (keep (is_kept p) p.existing ++ p.added);
        next_course = p.next_id;
      },
    )

unfoldable pub open_ingest_run : CatalogDb → ℕ × CatalogDb
open_ingest_run db = (
  db.next_run,
  record db {
    runs =
        db.runs
        ++ (record {
          id = db.next_run;
          started_at = db.now;
          finished_at = none;
          is_ok = false;
          rows = none;
          error = none;
        }
            ∷ []);
    next_run = db.next_run + 1;
  },
)

abbrev pub cut_error : Option Text → Option Text
cut_error none = none
cut_error (some error) = some (take error_max_chars error)

abbrev pub close_run : ℕ → ℕ → Bool → Option ℕ → Option Text → List IngestRun → List IngestRun
close_run id now is_ok rows error [] = []
close_run id now is_ok rows error (run ∷ runs) =
    (if run.id == id
      then record run {
        finished_at = some now;
        is_ok = is_ok;
        rows = rows;
        error = cut_error error;
      }
      else run)
    ∷ close_run id now is_ok rows error runs

-- `none` is the assertion that the row is there.
unfoldable pub close_ingest_run : ℕ → Bool → Option ℕ → Option Text → CatalogDb → Option CatalogDb
close_ingest_run id is_ok rows error db =
    if any (λ (run : IngestRun). run.id == id) db.runs
    then some (record db { runs = close_run id db.now is_ok rows error db.runs })
    else none
