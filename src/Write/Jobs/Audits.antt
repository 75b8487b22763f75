-- ===== src/Write/Jobs/Audits.antt =====
-- The audit rows of a batch, and the end of a job, as single statements of jobs.py leave them.
use nsysu_crs.Common.{
  ℕ, ◌+◌, Text, ◌≡◌, refl, false, Option, none, some, List, [], ◌∷◌, map, first, length, arith, inl,
  inr, Bool-cases, ◌==◌,
}
use nsysu_crs.Write.Canonical.{CanonicalOp}
use nsysu_crs.Write.Jobs.{
  JobStatus, is_active, WriteJob, Db, update_where, has_id, is_active_with, end_job, read_job,
  read_job_status, finish_job, audit_id, pending_audits, insert_pending_audits,
}

length-pending_audits :
    (id job_id : ℕ) (ops : List CanonicalOp) (payload_hash stuid_hash : Text) (now : ℕ)
    → length (map audit_id (pending_audits id job_id ops payload_hash stuid_hash now)) ≡ length ops
unfolding pending_audits
length-pending_audits id job_id [] payload_hash stuid_hash now = refl
length-pending_audits id job_id (op ∷ ops) payload_hash stuid_hash now =
    omega (arith, length-pending_audits (id + 1) job_id ops payload_hash stuid_hash now)

pub length-insert_pending_audits :
    (job_id : ℕ) (ops : List CanonicalOp) (payload_hash stuid_hash : Text) (db : Db)
    → length (insert_pending_audits job_id ops payload_hash stuid_hash db).0 ≡ length ops
unfolding insert_pending_audits
length-insert_pending_audits job_id ops payload_hash stuid_hash db =
    length-pending_audits db.next_audit job_id ops payload_hash stuid_hash db.now

ended_rows :
    (job_id : ℕ) (status : JobStatus) (now : ℕ) (jobs : List WriteJob) (job : WriteJob)
    → is_active status ≡ false
    → first (has_id job_id) (update_where (is_active_with job_id) (end_job status now) jobs)
      ≡ some job
    → is_active job.status ≡ false
unfolding update_where
ended_rows job_id status now [] job f h = cc
ended_rows job_id status now (row ∷ jobs) job f h = elim (Bool-cases (row.id == job_id)) [
  | inr e ↦ ended_rows job_id status now jobs job f (ground arith)
  | inl e ↦ elim (Bool-cases (is_active row.status)) [ inl a ↦ ground arith | inr a ↦ ground arith ]
]

-- After `finish_job` with a final status the job is not active.
pub finish_job_ended :
    (job_id : ℕ) (status : JobStatus) (db : Db) (s : JobStatus)
    → is_active status ≡ false
    → read_job_status job_id (finish_job job_id status db).1 ≡ some s
    → is_active s ≡ false
unfolding read_job_status read_job finish_job
finish_job_ended job_id status db s f h =
    found (first (has_id job_id) (finish_job job_id status db).1.jobs) refl h
  where
    found :
        (row : Option WriteJob)
        → first (has_id job_id) (finish_job job_id status db).1.jobs ≡ row
        → ◌≡◌ {A = Option JobStatus}
            (elim row [ none ↦ none | some job ↦ some job.status ])
            (some s)
        → is_active s ≡ false
    found none e q = cc
    found (some job) e q = ground (arith, ended_rows job_id status db.now db.jobs job f e)
