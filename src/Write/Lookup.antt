-- ===== src/Write/Lookup.antt =====
-- backend/app/write/catalog.py: the courses of a batch in the catalog. The UUIDs and the dates of the
-- standard library are parameters.
use nsysu_crs.Common.{
  ℕ, Text, text_eq, Bool, false, ◌&&◌, Option, none, some, List, [], ◌∷◌, map, any, keep, first,
  ◌==◌,
}
use nsysu_crs.Catalog.{Course}
use nsysu_crs.Write.Preview.{CourseInfo}
use nsysu_crs.Write.Timetable.{strip}

-- `uuid.UUID(t)`, where `none` is the ValueError; `str(id)`; and `isoformat()`.
pub record Names : Type 0 where
  pub uuid_of : Text → Option ℕ
  pub uuid_text : ℕ → Text
  pub isoformat : ℕ → Text

-- COURSE_NOT_FOUND, and `CourseInfo(course_id=None, code=code)`.
abbrev pub bare_course : Option Text → CourseInfo
bare_course code = record {
  course_id = none;
  code = code;
  class_time = [];
  restrict = none;
  select_n = none;
  selected_n = none;
  remaining = none;
  ingested_at = none;
}

abbrev stripped : Option Text → Option Text
stripped none = none
stripped (some code) = some (strip code)

abbrev or_empty : Option (List Text) → List Text
or_empty none = []
or_empty (some ts) = ts

-- `_info`
unfoldable pub info : Names → Course → CourseInfo
info names row = record {
  course_id = some (names.uuid_text row.id);
  code = stripped row.code;
  class_time = or_empty row.class_time;
  restrict = row.restrict;
  select_n = row.select_n;
  selected_n = row.selected_n;
  remaining = row.remaining;
  ingested_at = some (names.isoformat row.ingested_at);
}

abbrev code_is : Text → Course → Bool
code_is code row = elim row.code [ none ↦ false | some c ↦ text_eq c code ]

abbrev has_key : Names → Text → Course → Bool
has_key names ident row = elim (names.uuid_of ident) [
  | some id ↦ row.id == id
  | none ↦ code_is ident row
]

unfoldable pub resolve_course : Names → Text → Text → List Course → CourseInfo
resolve_course names year_sem ident courses =
    elim (first (λ (row : Course). has_key names (strip ident) row && text_eq row.year_sem year_sem)
      courses) [ none ↦ bare_course none | some row ↦ info names row ]

-- The identifiers that parse.
abbrev uuids : Names → List Text → List ℕ
uuids names [] = []
uuids names (t ∷ ts) =
    let more = uuids names ts in elim (names.uuid_of t) [ none ↦ more | some id ↦ id ∷ more ]

unfoldable pub resolve_courses_by_ids :
    Names → Text → List Text → List Course → List (Text × CourseInfo)
resolve_courses_by_ids names year_sem course_ids courses =
    let ids = uuids names course_ids in
    map (λ (row : Course). (names.uuid_text row.id, info names row))
      (keep (λ (row : Course). any (λ id. row.id == id) ids && text_eq row.year_sem year_sem)
        courses)
