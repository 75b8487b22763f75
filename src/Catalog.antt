-- ===== src/Catalog.antt =====
-- The catalog of courses: backend/app/catalog, backend/app/models/courses.py and backend/app/semester.py.
pub mod Persist
pub mod Schedule
use nsysu_crs.Common.{
  ℕ, ◌≡◌, refl, Text, codes, Bool, Option, none, some, List, [], ◌∷◌, ◌++◌, String, ℤ,
}

-- CatalogRow of rows.py.
pub record CatalogRow : Type 0 where
  pub year_sem : Text
  pub code : Option Text
  pub dept : Option Text
  pub grade : Option Text
  pub class_ : Option Text
  pub name_zh : Option Text
  pub name_en : Option Text
  pub credit : Option ℤ
  pub compulsory : Bool
  pub restrict : Option ℤ
  pub select_n : Option ℤ
  pub selected_n : Option ℤ
  pub remaining : Option ℤ
  pub teacher : Option Text
  pub room : Option Text
  pub class_time : List Text
  pub description : Option Text
  pub tags : List Text
  pub english : Bool
  pub change : Option Text
  pub change_desc : Option Text
  pub url : Option Text

-- Course of models/courses.py; `ingested_at` is the clock of `func.now()`.
pub record Course : Type 0 where
  pub id : ℕ
  pub year_sem : Text
  pub code : Option Text
  pub dept : Option Text
  pub grade : Option Text
  pub class_ : Option Text
  pub name_zh : Option Text
  pub name_en : Option Text
  pub credit : Option ℤ
  pub compulsory : Bool
  pub restrict : Option ℤ
  pub select_n : Option ℤ
  pub selected_n : Option ℤ
  pub remaining : Option ℤ
  pub teacher : Option Text
  pub room : Option Text
  pub class_time : Option (List Text)
  pub description : Option Text
  pub tags : Option (List Text)
  pub english : Bool
  pub change : Option Text
  pub change_desc : Option Text
  pub url : Option Text
  pub ingested_at : ℕ

-- A tuple of texts and missing texts, as a list of texts.
abbrev opt : Option Text → Text
opt none = []
opt (some t) = b'=' ∷ t

abbrev fallback :
    Text → Option Text → Option Text → Option Text → Option Text → List Text → List Text
fallback year_sem dept name_zh teacher room class_time =
    year_sem ∷ opt dept ∷ opt name_zh ∷ opt teacher ∷ opt room ∷ class_time

unfoldable pub fallback_key : CatalogRow → List Text
fallback_key row = fallback row.year_sem row.dept row.name_zh row.teacher row.room row.class_time

abbrev or_empty : Option (List Text) → List Text
or_empty none = []
or_empty (some ts) = ts

unfoldable pub course_fallback_key : Course → List Text
course_fallback_key course =
    fallback course.year_sem course.dept course.name_zh course.teacher course.room
      (or_empty course.class_time)

-- `("code", code)` or `("fb", key)`.
abbrev identity : Option Text → List Text → List Text
identity none key = codes "fb" ∷ key
identity (some code) key = codes "code" ∷ code ∷ []

unfoldable pub row_identity : CatalogRow → List Text
unfolding fallback_key
row_identity row = identity row.code (fallback_key row)

unfoldable pub course_identity : Course → List Text
unfolding course_fallback_key
course_identity course = identity course.code (course_fallback_key course)

-- `Course(**_row_payload(row))`, and what `_apply_payload` makes of a course.
unfoldable pub row_payload : ℕ → ℕ → CatalogRow → Course
row_payload id now row = record {
  id = id;
  year_sem = row.year_sem;
  code = row.code;
  dept = row.dept;
  grade = row.grade;
  class_ = row.class_;
  name_zh = row.name_zh;
  name_en = row.name_en;
  credit = row.credit;
  compulsory = row.compulsory;
  restrict = row.restrict;
  select_n = row.select_n;
  selected_n = row.selected_n;
  remaining = row.remaining;
  teacher = row.teacher;
  room = row.room;
  class_time = some row.class_time;
  description = row.description;
  tags = some row.tags;
  english = row.english;
  change = row.change;
  change_desc = row.change_desc;
  url = row.url;
  ingested_at = now;
}

unfoldable pub apply_payload : ℕ → CatalogRow → Course → Course
unfolding row_payload
apply_payload now row course = row_payload course.id now row

-- What the payload of a row makes has the row's identity.
pub payload_identity :
    (id now : ℕ) (row : CatalogRow) → course_identity (row_payload id now row) ≡ row_identity row
unfolding course_identity course_fallback_key row_identity fallback_key row_payload
payload_identity id now row = refl
