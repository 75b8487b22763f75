-- ===== src/Write/Resolve.antt =====
-- backend/app/api/write.py between a request and its batch: the courses that the operations name, with
-- what their selections say, and the batch that the verdicts leave.
use nsysu_crs.Common.{
  ℕ, Text, codes, text_eq, Bool, true, false, not, ◌&&◌, ◌||◌, ◌+◌, ◌>>=◌, Option, none, some, List,
  [], ◌∷◌, any, get_elem?, if◌then◌else◌, Result, ok, ℤ,
}
use nsysu_crs.Common.Sorting.{sort_by}
use nsysu_crs.Auth.Redis.{FakeRedis}
use nsysu_crs.Catalog.{Course}
use nsysu_crs.Selections.{SelectionItem, item_identity}
use nsysu_crs.Selections.Store.{SnapshotJson, load_snapshot}
use nsysu_crs.Stage.Probe.{HttpError, http}
use nsysu_crs.Write.Canonical.{CanonicalOp, make_op}
use nsysu_crs.Write.Lookup.{Names, resolve_course, resolve_courses_by_ids, bare_course}
use nsysu_crs.Write.Preview.{CourseInfo, ResolvedOp, ClashTarget, OpVerdict, Selections, is_drop}
use nsysu_crs.Write.Request.{OpIn}
use nsysu_crs.Write.Timetable.{UnknownPeriodCode, days_from_fused, strip}

-- The snapshot of the counters of a course, as the preview shows it.
pub record QuotaOut : Type 0 where
  pub restrict : Option ℤ
  pub select_n : Option ℤ
  pub selected_n : Option ℤ
  pub remaining : Option ℤ
  pub ingested_at : Option Text

unfoldable pub quota_of : CourseInfo → Option QuotaOut
quota_of course = elim course.course_id [
  | none ↦ none
  | some id ↦ some (record {
    restrict = course.restrict;
    select_n = course.select_n;
    selected_n = course.selected_n;
    remaining = course.remaining;
    ingested_at = course.ingested_at;
  })
]

-- `_verdict_out`: the verdict itself, and the quota in place of the course.
unfoldable pub verdict_out : OpVerdict → OpVerdict × Option QuotaOut
verdict_out verdict = (verdict, quota_of verdict.course)

-- `by_id[course_id]`
unfoldable pub course_by : Text → List (Text × CourseInfo) → Option CourseInfo
course_by id [] = none
course_by id ((i, course) ∷ by_id) = if text_eq i id then some course else course_by id by_id

-- `a or b`
abbrev pub filled : Option Text → Option Text → Option Text
filled none other = other
filled (some []) other = other
filled (some (c ∷ t)) other = some (c ∷ t)

abbrev joined : SelectionItem → List (Text × CourseInfo) → Option CourseInfo
joined item by_id = elim item.course_id [ none ↦ none | some id ↦ course_by id by_id ]

abbrev label_of : SelectionItem → Text
label_of item = elim (filled item.code none) [ none ↦ item_identity item | some code ↦ code ]

abbrev item_days :
    SelectionItem → List (Text × CourseInfo) → Result UnknownPeriodCode (Option (List Text))
item_days item by_id = elim (joined item by_id) [
  | some course ↦ ok (some course.class_time)
  | none ↦ days_from_fused item.times
]

unfoldable pub targets_of :
    List (Text × CourseInfo) → List SelectionItem → Result UnknownPeriodCode (List ClashTarget)
targets_of by_id [] = ok []
targets_of by_id (item ∷ items) = do
  found ← item_days item by_id
  more ← targets_of by_id items
  ok (elim found [ none ↦ more | some days ↦ record { label = label_of item; days = days } ∷ more ])

-- The texts that are there.
abbrev present : {A : Type 0} → (A → Option Text) → List A → List Text
present key [] = []
present key (a ∷ as') =
    let more = present key as' in elim (key a) [ none ↦ more | some t ↦ t ∷ more ]

abbrev items_of : SnapshotJson → Text → FakeRedis → List SelectionItem
items_of json session_id r = elim (load_snapshot json session_id r) [
  | none ↦ []
  | some snapshot ↦ snapshot.items
]

-- `_selection_targets`
unfoldable pub selection_targets :
    SnapshotJson
    → Names
    → Text
    → List Course
    → Text
    → FakeRedis
    → Result UnknownPeriodCode Selections
selection_targets json names year_sem courses session_id r =
    let items = items_of json session_id r in
    let ids = present (λ (item : SelectionItem). item.course_id) items in
    do
      targets ← targets_of (resolve_courses_by_ids names year_sem ids courses) items
      ok (record {
        selected_codes = present (λ (item : SelectionItem). filled item.course_no item.code) items;
        targets = targets;
      })

abbrev pub through_selections : List Text → OpIn → CourseInfo → CourseInfo
through_selections selected_codes op course =
    let ident = strip op.course_id in
    elim course.code [
      | some code ↦ course
      | none ↦
          if is_drop op.action && any (text_eq ident) selected_codes
          then bare_course (some ident)
          else course
    ]

abbrev is_typed : Option Text → Text → Bool
is_typed none code = false
is_typed (some t) code = text_eq t code

abbrev pub is_confirmed : OpIn → CourseInfo → Bool
is_confirmed op course = elim course.code [
  | none ↦ true
  | some code ↦ not (is_drop op.action) || is_typed op.drop_confirm_text code
]

-- The loop that resolves the operations; `raise` is the 400.
unfoldable pub resolve_ops :
    Names → Text → List Course → List Text → ℕ → List OpIn → Result HttpError (List ResolvedOp)
resolve_ops names year_sem courses selected_codes index [] = ok []
resolve_ops names year_sem courses selected_codes index (op ∷ ops) =
    let course =
      through_selections selected_codes op (resolve_course names year_sem op.course_id courses) in
    let later = resolve_ops names year_sem courses selected_codes (index + 1) ops in
    let resolved : ResolvedOp = record {
      index = index;
      action = op.action;
      ident = op.course_id;
      priority = op.priority;
      course = course;
    } in
    if is_confirmed op course
    then (later >>= λ more. ok (resolved ∷ more))
    else http 400 (codes "typed_confirmation_missing")

-- The latest of the dates.
abbrev last_of : List Text → Option Text
last_of [] = none
last_of (t ∷ []) = some t
last_of (t ∷ u ∷ ts) = last_of (u ∷ ts)

unfoldable pub quota_as_of : List OpVerdict → Option Text
quota_as_of verdicts =
    last_of (sort_by (λ t. t) (present (λ (v : OpVerdict). v.course.ingested_at) verdicts))

abbrev pub priority_at : List ResolvedOp → ℕ → Option (Option ℤ)
priority_at resolved index = elim (get_elem? resolved index) [
  | none ↦ none
  | some op ↦ some op.priority
]

abbrev pub op_of : List ResolvedOp → OpVerdict → Text → Option CanonicalOp
op_of resolved v code = elim (priority_at resolved v.index) [
  | none ↦ none
  | some priority ↦ make_op v.action code priority
]

-- The operations of the verdicts that have a code; `none` is the ValueError of one.
unfoldable pub batch_of : List ResolvedOp → List OpVerdict → Option (List CanonicalOp)
batch_of resolved [] = some []
batch_of resolved (v ∷ verdicts) =
    let later = batch_of resolved verdicts in
    elim v.code [
      | none ↦ later
      | some code ↦ elim (op_of resolved v code) [
        | none ↦ none
        | some op ↦ elim later [ none ↦ none | some ops ↦ some (op ∷ ops) ]
      ]
    ]
