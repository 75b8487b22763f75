-- ===== src/Write/JobView.antt =====
-- backend/app/api/write_jobs.py: the jobs of a student, as the records page shows them.
pub mod Owned
use nsysu_crs.Common.{
  ℤ, ℕ, Text, codes, text_eq, Bool, true, false, ◌&&◌, Option, none, some, List, [], ◌∷◌, map, any,
  keep, ◌==◌, if◌then◌else◌,
}
use nsysu_crs.Write.Canonical.{CanonicalOp, action_text}
use nsysu_crs.Write.Jobs.Reads.{
  load_job_for_owner, load_jobs_for_owner, load_audits, load_audits_for_jobs,
}
use nsysu_crs.Write.Jobs.{
  JobStatus, failed, cancelled, session_superseded, WriteJob, WriteAudit, Db, Outcome,
  unknown_reconciled, find_student_id,
}

pub record JobOpOut : Type 0 where
  pub code : Text
  pub action : Text
  pub priority : Option ℤ
  pub outcome : Option Outcome
  pub school_msg : Option Text

pub record JobView : Type 0 where
  pub job_id : ℕ
  pub status : JobStatus
  pub created_at : ℕ
  pub started_at : Option ℕ
  pub finished_at : Option ℕ
  pub ops : List JobOpOut
  pub message : Option Text
  pub is_manual : Bool

-- `by_pair.get((code, action))`: of the audits of a pair the last one.
unfoldable pub latest_audit : Text → Text → List WriteAudit → Option WriteAudit
latest_audit code action [] = none
latest_audit code action (a ∷ audits) = elim (latest_audit code action audits) [
  | some later ↦ some later
  | none ↦
      if text_eq a.course_id code && text_eq (action_text a.action) action then some a else none
]

unfoldable pub op_out : List WriteAudit → CanonicalOp → JobOpOut
op_out audits op =
    let found = latest_audit op.code (action_text op.action) audits in
    record {
      code = op.code;
      action = action_text op.action;
      priority = op.priority;
      outcome = elim found [ none ↦ none | some audit ↦ some audit.outcome ];
      school_msg = elim found [ none ↦ none | some audit ↦ audit.school_msg ];
    }

abbrev is_unknown : Option Outcome → Bool
is_unknown (some unknown_reconciled) = true
is_unknown o = false

-- _STATUS_MESSAGES
abbrev pub status_message : JobStatus → Option Text
status_message session_superseded = some (codes "你已在別處重新登入，此批送單已取消，請重新預檢")
status_message cancelled = some (codes "排隊逾時，此批送單已自動取消，請重新預檢")
status_message failed = some (codes "送單未完成；各課結果如下，若為階段逾時請重新預檢")
status_message status = none

-- `_compose_view`; `is_manual` is the reconcile note.
unfoldable pub compose_view : WriteJob → List WriteAudit → JobView
compose_view job audits =
    let ops = map (op_out audits) job.ops in
    record {
      job_id = job.id;
      status = job.status;
      created_at = job.created_at;
      started_at = job.started_at;
      finished_at = job.finished_at;
      ops = ops;
      message = status_message job.status;
      is_manual = any (λ (op : JobOpOut). is_unknown op.outcome) ops;
    }

abbrev job_id_of : WriteJob → ℕ
job_id_of job = job.id

unfoldable pub list_write_jobs : Text → ℕ → Db → List JobView
list_write_jobs student_no limit db =
    let rows : List WriteJob = elim (find_student_id student_no db) [
      | none ↦ []
      | some student_id ↦ load_jobs_for_owner student_id limit db
    ] in
    let audits = load_audits_for_jobs (map job_id_of rows) db in
    map
      (λ (row : WriteJob). compose_view row (keep (λ (a : WriteAudit). a.job_id == row.id) audits))
      rows

-- `uuid.UUID(job_id)` is a parameter; `none` is the 404.
unfoldable pub get_write_job : (Text → Option ℕ) → Text → Text → Db → Option JobView
get_write_job uuid_of job_id student_no db = elim (uuid_of job_id) [
  | none ↦ none
  | some id ↦ elim (find_student_id student_no db) [
    | none ↦ none
    | some student_id ↦ elim (load_job_for_owner id student_id db) [
      | none ↦ none
      | some job ↦ some (compose_view job (load_audits job.id db))
    ]
  ]
]
