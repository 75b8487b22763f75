-- ===== src/Export/Ics.antt =====
-- backend/app/export/ics.py and timeslots.py: the events of a plan's courses. The iCalendar library and
-- SHA-1 are parameters; a date is its ordinal number, a time of day its minutes.
use nsysu_crs.Common.{
  ℕ, ◌+◌, ◌-◌, ◌*◌, ◌%◌, ◌≤◌, ◌<◌, ◌≡◌, Text, codes, contains, Bool, not, ◌||◌, Option, none, some,
  List, [], ◌∷◌, ◌++◌, map, all, keep, length, take, ltb, ◌==◌, if◌then◌else◌, Result, ok, raise,
  ◌>>=◌, arith,
}
use nsysu_crs.Common.Decimal.{decimal}
use nsysu_crs.Common.Split.{join}
use nsysu_crs.Catalog.{Course}
use nsysu_crs.Write.Timetable.{strip, set_add}

pub record Period : Type 0 where
  pub code : ℕ
  pub start : ℕ
  pub end : ℕ

abbrev period : ℕ → ℕ → ℕ → ℕ → ℕ → Period
period code h m h' m' = record { code = code; start = h * 60 + m; end = h' * 60 + m' }

-- PERIOD_TABLE, whose order is that of PERIOD_RANGES.
abbrev pub period_table : List Period
period_table =
    period b'A' 7 0 7 50
    ∷ period b'1' 8 10 9 0
    ∷ period b'2' 9 10 10 0
    ∷ period b'3' 10 10 11 0
    ∷ period b'4' 11 10 12 0
    ∷ period b'B' 12 10 13 0
    ∷ period b'5' 13 10 14 0
    ∷ period b'6' 14 10 15 0
    ∷ period b'7' 15 10 16 0
    ∷ period b'8' 16 10 17 0
    ∷ period b'9' 17 10 18 0
    ∷ period b'C' 18 20 19 10
    ∷ period b'D' 19 15 20 5
    ∷ period b'E' 20 10 21 0
    ∷ period b'F' 21 5 21 55
    ∷ []

abbrev code_of : Period → ℕ
code_of p = p.code

-- IcsBuildError
pub record IcsBuildError : Type 0 where
  pub course_label : Text
  pub day_index : ℕ
  pub slot : Text

-- `a or b` and `a or ""` of a column.
abbrev or_else : Option Text → Text → Text
or_else none other = other
or_else (some []) other = other
or_else (some (c ∷ t)) other = c ∷ t

unfoldable pub display_name : Course → Text
display_name course =
    strip (or_else course.name_zh (or_else course.name_en (or_else course.code (codes "課程"))))

abbrev in_brackets : Text → Text → Text
in_brackets name [] = name
in_brackets name (c ∷ t) = name ++ (codes "（" ++ ((c ∷ t) ++ codes "）"))

unfoldable pub course_label : Course → Text
course_label course = in_brackets (display_name course) (or_else course.code [])

unfoldable pub summary : Course → Text
summary course = in_brackets (display_name course) (strip (or_else course.teacher []))

abbrev slots_of : Option (List Text) → List Text
slots_of none = []
slots_of (some slots) = slots

-- `_identity`
unfoldable pub uid_identity : Course → Text
uid_identity course = elim (or_else course.code []) [
  | c ∷ code ↦ c ∷ code
  | [] ↦ join b'|' (
      or_else course.dept []
      ∷ or_else course.name_zh []
      ∷ or_else course.teacher []
      ∷ or_else course.room []
      ∷ join b';' (slots_of course.class_time)
      ∷ [])
]

unfoldable pub event_uid : (Text → Text) → Course → ℕ → Text → Text
event_uid sha1_hex course weekday block =
    sha1_hex (join b'|' (course.year_sem ∷ uid_identity course ∷ decimal weekday ∷ block ∷ []))
    ++ codes "@nsysu-course-wrapper"

-- `len(set(slot))`
abbrev distinct : Text → Text
distinct [] = []
distinct (c ∷ t) = set_add c (distinct t)

abbrev earliest : ℕ → List Period → ℕ
earliest least [] = least
earliest least (p ∷ ps) = earliest (if ltb p.start least then p.start else least) ps

abbrev latest : ℕ → List Period → ℕ
latest most [] = most
latest most (p ∷ ps) = latest (if ltb most p.end then p.end else most) ps

pub record DayBlock : Type 0 where
  pub day_index : ℕ
  pub block : Text
  pub start : ℕ
  pub end : ℕ

abbrev is_code : ℕ → Bool
is_code ch = contains ch (map code_of period_table)

-- The block of one slot that is not blank; `raise` is an unknown code.
unfoldable pub slot_block : Text → ℕ → Text → Text → Result IcsBuildError DayBlock
slot_block label day_index raw slot =
    let ordered = keep (λ (p : Period). contains p.code slot) period_table in
    if not (length ordered == length (distinct slot)) || not (all is_code slot)
    then raise (record { course_label = label; day_index = day_index; slot = raw })
    else ok (record {
      day_index = day_index;
      block = map code_of ordered;
      start = earliest 1440 ordered;
      end = latest 0 ordered;
    })

unfoldable pub blocks_from : Text → ℕ → List Text → Result IcsBuildError (List DayBlock)
blocks_from label day_index [] = ok []
blocks_from label day_index (raw ∷ slots) =
    let later = blocks_from label (day_index + 1) slots in
    elim (strip raw) [
      | [] ↦ later
      | c ∷ slot ↦
          slot_block label day_index raw (c ∷ slot) >>= λ block. later >>= λ more. ok (block ∷ more)
    ]

-- `_day_blocks`
unfoldable pub day_blocks : Course → Result IcsBuildError (List DayBlock)
day_blocks course = blocks_from (course_label course) 0 (take 7 (slots_of course.class_time))

-- `date.weekday()` of an ordinal number.
abbrev pub weekday : ℕ → ℕ
weekday date = (date + 6) % 7

-- `_first_occurrence`; Python's remainder of a difference is written out.
unfoldable pub first_occurrence : ℕ → ℕ → ℕ
first_occurrence semester_start day_index =
    semester_start + ((day_index + 7) - weekday semester_start) % 7

-- What one event differs in from the others: the stamp and the weekly rule are those of the calendar.
pub record Event : Type 0 where
  pub uid : Text
  pub date : ℕ
  pub start : ℕ
  pub end : ℕ
  pub summary : Text
  pub location : Option Text

abbrev location_of : Text → Option Text
location_of [] = none
location_of (c ∷ t) = some (c ∷ t)

unfoldable pub event_of : (Text → Text) → ℕ → Course → DayBlock → Event
event_of sha1_hex semester_start course b = record {
  uid = event_uid sha1_hex course (b.day_index + 1) b.block;
  date = first_occurrence semester_start b.day_index;
  start = b.start;
  end = b.end;
  summary = summary course;
  location = location_of (strip (or_else course.room []));
}

-- The events of `build_plan_ics`, in their order.
unfoldable pub plan_events : (Text → Text) → ℕ → List Course → Result IcsBuildError (List Event)
plan_events sha1_hex semester_start [] = ok []
plan_events sha1_hex semester_start (course ∷ courses) = do
  blocks ← day_blocks course
  more ← plan_events sha1_hex semester_start courses
  ok (map (event_of sha1_hex semester_start course) blocks ++ more)

-- The first meeting is in the first seven days of the semester, on the weekday of its slot.
pub first_occurrence_lem :
    (semester_start day_index : ℕ)
    → day_index < 7
    → (semester_start ≤ first_occurrence semester_start day_index)
      × (first_occurrence semester_start day_index < semester_start + 7)
      × (weekday (first_occurrence semester_start day_index) ≡ day_index)
unfolding first_occurrence
first_occurrence_lem semester_start day_index h = (omega arith, omega arith, omega arith)
