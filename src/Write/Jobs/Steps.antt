-- ===== src/Write/Jobs/Steps.antt =====
-- Every statement that the program makes on the tables, as a step from one database to the next.
use nsysu_crs.Common.{ℕ, Text, ◌≡◌, false, List, ok}
use nsysu_crs.Write.Canonical.{CanonicalOp}
use nsysu_crs.Write.Jobs.{
  JobStatus, is_active, WriteJob, OutcomeUpdate, Db, create_queued_job, claim_job, finish_job,
  cancel_stale_active_jobs, insert_pending_audits, apply_audit_outcomes, record_successful_login,
}

-- A job is only finished with a final status; time passes in between.
pub data Step (db db' : Db) : Type 0 where
  created :
      (student_id : ℕ) (ops : List CanonicalOp) (payload_hash : Text) (job : WriteJob)
      → create_queued_job student_id ops payload_hash db ≡ ok (job, db')
      → Step db db'
  claimed : (job_id not_older_than : ℕ) → db' ≡ (claim_job job_id not_older_than db).1 → Step db db'
  finished :
      (job_id : ℕ) (status : JobStatus)
      → is_active status ≡ false
      → db' ≡ (finish_job job_id status db).1
      → Step db db'
  swept : (older_than : ℕ) → db' ≡ (cancel_stale_active_jobs older_than db).1 → Step db db'
  logged_in : (student_no : Text) → db' ≡ (record_successful_login student_no db).1 → Step db db'
  audited :
      (job_id : ℕ) (ops : List CanonicalOp) (payload_hash stuid_hash : Text)
      → db' ≡ (insert_pending_audits job_id ops payload_hash stuid_hash db).1
      → Step db db'
  written_back :
      (updates : List OutcomeUpdate) → db' ≡ apply_audit_outcomes updates db → Step db db'
  waited : (now : ℕ) → db' ≡ record db { now = now } → Step db db'

-- A database that a sequence of steps leads to.
pub data Reach (origin : Db) : Db → Type 0 where
  untouched : Reach origin origin
  followed : {before after : Db} → Reach origin before → Step before after → Reach origin after
