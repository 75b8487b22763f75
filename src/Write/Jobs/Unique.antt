-- ===== src/Write/Jobs/Unique.antt =====
-- The partial unique index: no two queued or running jobs have one payload hash.
use nsysu_crs.Common.{
  ℕ, Text, text_eq_iff, ◌≡◌, refl, Bool, true, false, List, [], ◌∷◌, ◌++◌, any, arith, Bool-cases,
  inl, inr,
}
use nsysu_crs.Write.Jobs.{
  JobStatus, is_active, is_queued, cancelled, session_superseded, WriteJob, Db, update_where,
  has_active_hash, new_job, is_claimable, start_job, claim_job, is_active_with, end_job, finish_job,
  is_stale, cancel_stale_active_jobs, is_active_of, supersede_jobs, upsert_student,
  record_successful_login, insert_pending_audits, apply_audit_outcomes,
}
use nsysu_crs.Write.Jobs.Status.{upsert-jobs, created_jobs}
use nsysu_crs.Write.Jobs.Steps.{
  Step, created, claimed, finished, swept, logged_in, audited, written_back, waited, Reach,
  untouched, followed,
}

-- An active job is followed by no active job with its hash.
abbrev pub IsUnique : List WriteJob → Type 0
IsUnique [] = Unit
IsUnique (job ∷ jobs) =
    (is_active job.status ≡ true → any (has_active_hash job.payload_hash) jobs ≡ false)
    × IsUnique jobs

-- A change that keeps the hash and brings no job back.
record IsQuiet (test : WriteJob → Bool) (change : WriteJob → WriteJob) : Type 0 where
  hash : (job : WriteJob) → (change job).payload_hash ≡ job.payload_hash
  status :
      (job : WriteJob)
      → test job ≡ true
      → is_active (change job).status ≡ true
      → is_active job.status ≡ true

none_after :
    (h : Text) (test : WriteJob → Bool) (change : WriteJob → WriteJob) (jobs : List WriteJob)
    → IsQuiet test change
    → any (has_active_hash h) jobs ≡ false
    → any (has_active_hash h) (update_where test change jobs) ≡ false
unfolding update_where
none_after h test change [] q e = refl
none_after h test change (job ∷ jobs) q e =
    ground (arith, none_after h test change jobs q, q.hash job, q.status job)

update-IsUnique :
    (test : WriteJob → Bool) (change : WriteJob → WriteJob) (jobs : List WriteJob)
    → IsQuiet test change
    → IsUnique jobs
    → IsUnique (update_where test change jobs)
unfolding update_where
update-IsUnique test change [] q u = tt
update-IsUnique test change (job ∷ jobs) q u = elim (Bool-cases (test job)) [
  | inl e ↦ rw e (
    λ a. rw (q.hash job) (none_after job.payload_hash test change jobs q (u.0 (q.status job e a))),
    update-IsUnique test change jobs q u.1,
  )
  | inr e ↦ rw e (
    λ a. none_after job.payload_hash test change jobs q (u.0 a),
    update-IsUnique test change jobs q u.1,
  )
]

any_append :
    (h : Text) (jobs : List WriteJob) (job : WriteJob)
    → any (has_active_hash h) jobs ≡ false
    → has_active_hash h job ≡ false
    → any (has_active_hash h) (jobs ++ (job ∷ [])) ≡ false
any_append h [] job e f = rw f refl
any_append h (j ∷ jobs) job e f = ground (arith, any_append h jobs job)

other_hash :
    (j job : WriteJob)
    → has_active_hash job.payload_hash j ≡ false
    → is_active j.status ≡ true
    → has_active_hash j.payload_hash job ≡ false
other_hash j job e a = ground (
  arith,
  text_eq_iff job.payload_hash j.payload_hash,
  text_eq_iff j.payload_hash job.payload_hash,
)

append-IsUnique :
    (jobs : List WriteJob) (job : WriteJob)
    → any (has_active_hash job.payload_hash) jobs ≡ false
    → IsUnique jobs
    → IsUnique (jobs ++ (job ∷ []))
append-IsUnique [] job e u = (λ a. refl, tt)
append-IsUnique (j ∷ jobs) job e u = (
  λ a. any_append j.payload_hash jobs job (u.0 a) (other_hash j job (ground arith) a),
  append-IsUnique jobs job (ground arith) u.1,
)

end-IsQuiet :
    (test : WriteJob → Bool) (status : JobStatus) (now : ℕ)
    → is_active status ≡ false
    → IsQuiet test (end_job status now)
end-IsQuiet test status now f = record { hash = λ job. refl; status = λ job e a. ground arith }

claim-IsQuiet : (job_id cutoff now : ℕ) → IsQuiet (is_claimable job_id cutoff) (start_job now)
claim-IsQuiet job_id cutoff now = record {
  hash = λ job. refl;
  status = λ job e a. active_of_queued job.status (ground arith);
}
  where
    active_of_queued : (s : JobStatus) → is_queued s ≡ true → is_active s ≡ true
    active_of_queued s h = ground arith

login-IsUnique :
    (student_no : Text) (db : Db)
    → IsUnique db.jobs
    → IsUnique (record_successful_login student_no db).1.jobs
unfolding record_successful_login supersede_jobs
login-IsUnique student_no db u = rw (upsert-jobs student_no db) (
    update-IsUnique (is_active_of (upsert_student student_no db).0)
      (end_job session_superseded (upsert_student student_no db).1.now) db.jobs
      (end-IsQuiet _ session_superseded _ refl) u)

Step-IsUnique : {db db' : Db} → Step db db' → IsUnique db.jobs → IsUnique db'.jobs
unfolding claim_job finish_job cancel_stale_active_jobs insert_pending_audits apply_audit_outcomes
Step-IsUnique {db} {db'} (created student_id ops payload_hash job h) u =
    let (free, e) = created_jobs student_id ops payload_hash db db' job h in
    rw e (append-IsUnique db.jobs (new_job db.next_job student_id ops payload_hash db.now) free u)
Step-IsUnique {db} (claimed job_id cutoff e) u = rw e (
    update-IsUnique (is_claimable job_id cutoff) (start_job db.now) db.jobs
      (claim-IsQuiet job_id cutoff db.now) u)
Step-IsUnique {db} (finished job_id status f e) u = rw e (
    update-IsUnique (is_active_with job_id) (end_job status db.now) db.jobs
      (end-IsQuiet _ status _ f) u)
Step-IsUnique {db} (swept cutoff e) u = rw e (
    update-IsUnique (is_stale cutoff) (end_job cancelled db.now) db.jobs
      (end-IsQuiet _ cancelled _ refl) u)
Step-IsUnique {db} (logged_in student_no e) u = rw e (login-IsUnique student_no db u)
Step-IsUnique (audited job_id ops payload_hash stuid_hash e) u = rw e u
Step-IsUnique (written_back updates e) u = rw e u
Step-IsUnique (waited now e) u = rw e u

-- From a table in which no two queued or running jobs have one payload hash, every sequence of
-- statements leads to such a table.
pub Reach-IsUnique : {db db' : Db} → Reach db db' → IsUnique db.jobs → IsUnique db'.jobs
Reach-IsUnique untouched u = u
Reach-IsUnique (followed r st) u = Step-IsUnique st (Reach-IsUnique r u)
