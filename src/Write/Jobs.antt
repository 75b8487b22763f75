-- ===== src/Write/Jobs.antt =====
-- backend/app/write/jobs.py: the tables of the write path, and the statements on them. A table
-- is the list of its rows; a statement is what its WHERE and VALUES say; times are numbers.
pub mod Steps
pub mod Status
pub mod Unique
pub mod Audits
pub mod Reads
use nsysu_crs.Common.{
  ℕ, ◌+◌, Text, text_eq, Bool, true, false, ◌&&◌, ◌||◌, Option, none, some, List, [], ◌∷◌, ◌++◌,
  map, any, keep, first, leb, ltb, ◌==◌, length, if◌then◌else◌, Result, ok, raise,
}
use nsysu_crs.Write.Canonical.{Action, CanonicalOp}

-- WRITE_JOB_STATUSES
pub data JobStatus : Type 0 where
  queued running done failed cancelled session_superseded : JobStatus

-- _ACTIVE_STATUSES
abbrev pub is_active : JobStatus → Bool
is_active queued = true
is_active running = true
is_active done = false
is_active failed = false
is_active cancelled = false
is_active session_superseded = false

abbrev pub is_queued : JobStatus → Bool
is_queued queued = true
is_queued running = false
is_queued done = false
is_queued failed = false
is_queued cancelled = false
is_queued session_superseded = false

-- The outcomes of outcomes.py.
pub data Outcome : Type 0 where
  success rejected transport_failed parse_failed stage_expired unknown_reconciled superseded
        pending :
      Outcome

-- WriteJob and WriteAudit of models/write.py.
pub record WriteJob : Type 0 where
  pub id : ℕ
  pub student_id : ℕ
  pub status : JobStatus
  pub ops : List CanonicalOp
  pub payload_hash : Text
  pub created_at : ℕ
  pub started_at : Option ℕ
  pub finished_at : Option ℕ

pub record WriteAudit : Type 0 where
  pub id : ℕ
  pub job_id : ℕ
  pub course_id : Text
  pub action : Action
  pub outcome : Outcome
  pub school_msg : Option Text
  pub payload_hash : Text
  pub stuid_hash : Text
  pub created_at : ℕ

pub record Student : Type 0 where
  pub id : ℕ
  pub student_no : Text

-- The database: the tables, the next identifiers, and the clock of `func.now()`.
pub record Db : Type 0 where
  pub students : List Student
  pub jobs : List WriteJob
  pub audits : List WriteAudit
  pub next_student : ℕ
  pub next_job : ℕ
  pub next_audit : ℕ
  pub now : ℕ

-- The partial unique index rejects the row.
pub data DuplicateActiveJob : Type 0 where
  duplicate_active_job : Text → DuplicateActiveJob

-- UPDATE ... WHERE test SET change
unfoldable pub update_where {ℓ} : {A : Type ℓ} → (A → Bool) → (A → A) → List A → List A
update_where test change [] = []
update_where test change (r ∷ rows) =
    (if test r then change r else r) ∷ update_where test change rows

abbrev pub has_id : ℕ → WriteJob → Bool
has_id job_id job = job.id == job_id

abbrev pub has_active_hash : Text → WriteJob → Bool
has_active_hash payload_hash job = text_eq job.payload_hash payload_hash && is_active job.status

unfoldable pub find_active_job_by_hash : Text → Db → Option WriteJob
find_active_job_by_hash payload_hash db = first (has_active_hash payload_hash) db.jobs

abbrev pub new_job : ℕ → ℕ → List CanonicalOp → Text → ℕ → WriteJob
new_job id student_id ops payload_hash now = record {
  id = id;
  student_id = student_id;
  status = queued;
  ops = ops;
  payload_hash = payload_hash;
  created_at = now;
  started_at = none;
  finished_at = none;
}

-- The insertion that the partial unique index guards.
unfoldable pub create_queued_job :
    ℕ → List CanonicalOp → Text → Db → Result DuplicateActiveJob (WriteJob × Db)
create_queued_job student_id ops payload_hash db =
    let job = new_job db.next_job student_id ops payload_hash db.now in
    if any (has_active_hash payload_hash) db.jobs
    then raise (duplicate_active_job payload_hash)
    else ok (job, record db { jobs = db.jobs ++ (job ∷ []); next_job = db.next_job + 1 })

abbrev pub is_claimable : ℕ → ℕ → WriteJob → Bool
is_claimable job_id not_older_than job =
    job.id == job_id && (is_queued job.status && leb not_older_than job.created_at)

abbrev pub start_job : ℕ → WriteJob → WriteJob
start_job now job = record job { status = running; started_at = some now }

-- UPDATE ... RETURNING: the claimed row, as it is after the update, or none.
unfoldable pub claim_job : ℕ → ℕ → Db → Option WriteJob × Db
claim_job job_id not_older_than db =
    let claimed = first (is_claimable job_id not_older_than) db.jobs in
    (
      elim claimed [ none ↦ none | some job ↦ some (start_job db.now job) ],
      record db {
        jobs = update_where (is_claimable job_id not_older_than) (start_job db.now) db.jobs;
      },
    )

unfoldable pub read_job : ℕ → Db → Option WriteJob
read_job job_id db = first (has_id job_id) db.jobs

unfoldable pub read_job_status : ℕ → Db → Option JobStatus
unfolding read_job
read_job_status job_id db = elim (read_job job_id db) [ none ↦ none | some job ↦ some job.status ]

abbrev pub is_active_with : ℕ → WriteJob → Bool
is_active_with job_id job = job.id == job_id && is_active job.status

abbrev pub end_job : JobStatus → ℕ → WriteJob → WriteJob
end_job status now job = record job { status = status; finished_at = some now }

unfoldable pub finish_job : ℕ → JobStatus → Db → Bool × Db
finish_job job_id status db = (
  any (is_active_with job_id) db.jobs,
  record db { jobs = update_where (is_active_with job_id) (end_job status db.now) db.jobs },
)

abbrev pub is_stale : ℕ → WriteJob → Bool
is_stale older_than job = is_active job.status && ltb job.created_at older_than

unfoldable pub cancel_stale_active_jobs : ℕ → Db → ℕ × Db
cancel_stale_active_jobs older_than db = (
  length (keep (is_stale older_than) db.jobs),
  record db { jobs = update_where (is_stale older_than) (end_job cancelled db.now) db.jobs },
)

abbrev pub new_audit : ℕ → ℕ → CanonicalOp → Text → Text → ℕ → WriteAudit
new_audit id job_id op payload_hash stuid_hash now = record {
  id = id;
  job_id = job_id;
  course_id = op.code;
  action = op.action;
  outcome = pending;
  school_msg = none;
  payload_hash = payload_hash;
  stuid_hash = stuid_hash;
  created_at = now;
}

pending_audits : ℕ → ℕ → List CanonicalOp → Text → Text → ℕ → List WriteAudit
pending_audits id job_id [] payload_hash stuid_hash now = []
pending_audits id job_id (op ∷ ops) payload_hash stuid_hash now =
    new_audit id job_id op payload_hash stuid_hash now
    ∷ pending_audits (id + 1) job_id ops payload_hash stuid_hash now

abbrev pub audit_id : WriteAudit → ℕ
audit_id audit = audit.id

-- One pending row for each operation; the identifiers in the order of the operations.
unfoldable pub insert_pending_audits : ℕ → List CanonicalOp → Text → Text → Db → List ℕ × Db
unfolding pending_audits
insert_pending_audits job_id ops payload_hash stuid_hash db =
    let audits = pending_audits db.next_audit job_id ops payload_hash stuid_hash db.now in
    (
      map audit_id audits,
      record db { audits = db.audits ++ audits; next_audit = db.next_audit + length ops },
    )

pub record OutcomeUpdate : Type 0 where
  pub audit : ℕ
  pub outcome : Outcome
  pub school_msg : Option Text

abbrev pub with_outcome : OutcomeUpdate → WriteAudit → WriteAudit
with_outcome u audit = record audit { outcome = u.outcome; school_msg = u.school_msg }

abbrev pub is_audit : ℕ → WriteAudit → Bool
is_audit id audit = audit.id == id

apply_outcomes : List OutcomeUpdate → List WriteAudit → List WriteAudit
apply_outcomes [] audits = audits
apply_outcomes (u ∷ updates) audits =
    apply_outcomes updates (update_where (is_audit u.audit) (with_outcome u) audits)

unfoldable pub apply_audit_outcomes : List OutcomeUpdate → Db → Db
unfolding apply_outcomes
apply_audit_outcomes updates db = record db { audits = apply_outcomes updates db.audits }

abbrev pub has_number : Text → Student → Bool
has_number student_no student = text_eq student.student_no student_no

unfoldable pub find_student_id : Text → Db → Option ℕ
find_student_id student_no db = elim (first (has_number student_no) db.students) [
  | none ↦ none
  | some student ↦ some student.id
]

-- INSERT ... ON CONFLICT DO NOTHING, and the identifier of the row that is then there.
unfoldable pub upsert_student : Text → Db → ℕ × Db
unfolding find_student_id
upsert_student student_no db = elim (find_student_id student_no db) [
  | some id ↦ (id, db)
  | none ↦ (
    db.next_student,
    record db {
      students = db.students ++ (record { id = db.next_student; student_no = student_no } ∷ []);
      next_student = db.next_student + 1;
    },
  )
]

abbrev pub is_active_of : ℕ → WriteJob → Bool
is_active_of student_id job = job.student_id == student_id && is_active job.status

unfoldable pub supersede_jobs : ℕ → Db → ℕ × Db
supersede_jobs student_id db = (
  length (keep (is_active_of student_id) db.jobs),
  record db {
    jobs = update_where (is_active_of student_id) (end_job session_superseded db.now) db.jobs;
  },
)

-- `record_successful_login` of backend/app/auth/students.py: the identifier of the student, and
-- how many jobs the login superseded.
unfoldable pub record_successful_login : Text → Db → (ℕ × ℕ) × Db
record_successful_login student_no db =
    let (student_id, db') = upsert_student student_no db in
    let (superseded_jobs, db'') = supersede_jobs student_id db' in
    ((student_id, superseded_jobs), db'')
