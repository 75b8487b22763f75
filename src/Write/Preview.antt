-- ===== src/Write/Preview.antt =====
-- backend/app/write/preview.py: the checks of a batch, operation by operation.
pub mod Safe
pub mod Total
pub mod Verdicts
use nsysu_crs.Common.{
  ℕ, Text, text_eq, Bool, true, false, not, ◌&&◌, ◌||◌, Option, none, some, List, [], ◌∷◌, ◌++◌,
  any, if◌then◌else◌, Result, ok, ◌>>=◌, ℤ, is_zero,
}
use nsysu_crs.Write.Canonical.{Action, drop, add, rest}
use nsysu_crs.Write.Timetable.{UnknownPeriodCode, is_conflict_days}

-- CourseInfo of backend/app/write/catalog.py; the date is its ISO text.
pub record CourseInfo : Type 0 where
  pub course_id : Option Text
  pub code : Option Text
  pub class_time : List Text
  pub restrict : Option ℤ
  pub select_n : Option ℤ
  pub selected_n : Option ℤ
  pub remaining : Option ℤ
  pub ingested_at : Option Text

pub record ResolvedOp : Type 0 where
  pub index : ℕ
  pub action : Action
  pub ident : Text
  pub priority : Option ℤ
  pub course : CourseInfo

pub record ClashTarget : Type 0 where
  pub label : Text
  pub days : List Text

pub data Verdict : Type 0 where
  fine no_code mixed not_selected conflict : Verdict

pub data Warning : Type 0 where
  remaining_zero : Warning

pub record OpVerdict : Type 0 where
  pub index : ℕ
  pub action : Action
  pub ident : Text
  pub code : Option Text
  pub writable : Bool
  pub verdict : Verdict
  pub detail : Option Text
  pub warnings : List Warning
  pub course : CourseInfo

abbrev pub is_add : Action → Bool
is_add add = true
is_add drop = false
is_add rest = false

abbrev pub is_drop : Action → Bool
is_drop drop = true
is_drop add = false
is_drop rest = false

-- `op.course.code == code`
unfoldable pub has_code : Text → ResolvedOp → Bool
has_code code op = elim op.course.code [ none ↦ false | some c ↦ text_eq c code ]

-- `code in mixed_codes`, for the code of an operation of the batch.
unfoldable pub is_mixed : List ResolvedOp → Text → Bool
unfolding has_code
is_mixed ops code =
    any (λ op. is_add op.action && has_code code op) ops
    && any (λ op. is_drop op.action && has_code code op) ops

-- A `for` loop with `break`: the first item whose timetable clashes.
unfoldable pub first_clash {ℓ} :
    {A : Type ℓ} → (A → List Text) → List Text → List A → Result UnknownPeriodCode (Option A)
first_clash days class_time [] = ok none
first_clash days class_time (x ∷ xs) =
    let later = first_clash days class_time xs in
    do clash ← is_conflict_days class_time (days x); if clash then ok (some x) else later

abbrev pub op_days : ResolvedOp → List Text
op_days op = op.course.class_time

-- The verdict on an add whose code is not mixed, with the clashing label.
unfoldable pub check_add :
    List ClashTarget
    → List ResolvedOp
    → ResolvedOp
    → Result UnknownPeriodCode (Verdict × Option Text)
check_add targets staged op = do
  target ← first_clash (λ t. t.days) op.course.class_time targets
  elim target [
    | some t ↦ ok (conflict, some t.label)
    | none ↦ do
      earlier ← first_clash op_days op.course.class_time staged
      elim earlier [ some e ↦ ok (conflict, e.course.code) | none ↦ ok (fine, none) ]
  ]

abbrev pub add_warnings : ResolvedOp → List Warning
add_warnings op = elim op.course.remaining [
  | none ↦ []
  | some n ↦ if is_zero n then remaining_zero ∷ [] else []
]

-- The verdict of an add with its warnings, which never block.
abbrev pub with_warnings :
    ResolvedOp
    → Verdict × Option Text
    → Result UnknownPeriodCode (Verdict × Option Text × List Warning)
with_warnings op (verdict, detail) = ok (verdict, detail, add_warnings op)

-- The two checked sets: the codes of the selections, and the selections as timetables.
pub record Selections : Type 0 where
  pub selected_codes : List Text
  pub targets : List ClashTarget

-- The `if` ladder on an operation with a code: verdict, detail and warnings.
unfoldable pub check_op :
    Selections
    → List ResolvedOp
    → List ResolvedOp
    → ResolvedOp
    → Text
    → Result UnknownPeriodCode (Verdict × Option Text × List Warning)
check_op sel ops staged op code =
    if is_mixed ops code
    then ok (mixed, none, [])
    else if is_drop op.action && not (any (λ c. text_eq c code) sel.selected_codes)
    then ok (not_selected, none, [])
    else if is_add op.action
    then check_add sel.targets staged op >>= with_warnings op
    else ok (fine, none, [])

abbrev pub is_fine : Verdict → Bool
is_fine fine = true
is_fine no_code = false
is_fine mixed = false
is_fine not_selected = false
is_fine conflict = false

abbrev pub code_less : ResolvedOp → OpVerdict
code_less op = record {
  index = op.index;
  action = op.action;
  ident = op.ident;
  code = none;
  writable = false;
  verdict = no_code;
  detail = none;
  warnings = [];
  course = op.course;
}

abbrev pub coded : ResolvedOp → Text → Verdict → Option Text → List Warning → OpVerdict
coded op code verdict detail warnings = record {
  index = op.index;
  action = op.action;
  ident = op.ident;
  code = some code;
  writable = is_fine verdict;
  verdict = verdict;
  detail = detail;
  warnings = warnings;
  course = op.course;
}

-- `staged` after the operation.
abbrev pub stage_op : ResolvedOp → Verdict → List ResolvedOp → List ResolvedOp
stage_op op verdict staged =
    if is_fine verdict && is_add op.action then staged ++ (op ∷ []) else staged

abbrev pub graded :
    ResolvedOp
    → Text
    → List ResolvedOp
    → Verdict × Option Text × List Warning
    → Result UnknownPeriodCode (OpVerdict × List ResolvedOp)
graded op code staged (verdict, detail, warnings) =
    ok (coded op code verdict detail warnings, stage_op op verdict staged)

-- The body of the loop: the verdict on one operation, and what is staged after it.
unfoldable pub judge :
    Selections
    → List ResolvedOp
    → List ResolvedOp
    → ResolvedOp
    → Option Text
    → Result UnknownPeriodCode (OpVerdict × List ResolvedOp)
judge sel ops staged op none = ok (code_less op, staged)
judge sel ops staged op (some code) = check_op sel ops staged op code >>= graded op code staged

-- The loop over the batch; `ops` is the whole batch and `staged` the accepted adds so far.
unfoldable pub evaluate_loop :
    Selections
    → List ResolvedOp
    → List ResolvedOp
    → List ResolvedOp
    → Result UnknownPeriodCode (List OpVerdict)
evaluate_loop sel ops staged [] = ok []
evaluate_loop sel ops staged (op ∷ later) = judge sel ops staged op op.course.code >>= λ r.
    evaluate_loop sel ops r.1 later >>= λ more. ok (r.0 ∷ more)

unfoldable pub evaluate_ops :
    Selections → List ResolvedOp → Result UnknownPeriodCode (List OpVerdict)
evaluate_ops sel ops = evaluate_loop sel ops [] ops
