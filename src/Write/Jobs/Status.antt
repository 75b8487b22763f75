-- ===== src/Write/Jobs/Status.antt =====
-- The life of a job: which statuses may follow which, and that the end of a job is final.
use nsysu_crs.Common.{
  ℕ, Text, ◌≡◌, refl, ap, ◌∙◌, Bool, true, false, Option, none, some, List, [], ◌∷◌, ◌++◌, first,
  any, arith, Bool-cases, inl, inr, ◌==◌, ok,
}
use nsysu_crs.Write.Canonical.{CanonicalOp}
use nsysu_crs.Write.Jobs.{
  JobStatus, queued, running, done, failed, cancelled, session_superseded, is_active, is_queued,
  WriteJob, Db, update_where, has_id, has_active_hash, new_job, create_queued_job, is_claimable,
  start_job, claim_job, read_job, read_job_status, is_active_with, end_job, finish_job, is_stale,
  cancel_stale_active_jobs, insert_pending_audits, apply_audit_outcomes, upsert_student,
  is_active_of, supersede_jobs, record_successful_login,
}
use nsysu_crs.Write.Jobs.Steps.{
  Step, created, claimed, finished, swept, logged_in, audited, written_back, waited, Reach,
  untouched, followed,
}

-- `queued` may be followed by every status, `running` by every other one than `queued`, and a
-- final status only by itself.
abbrev pub may_follow : JobStatus → JobStatus → Bool
may_follow queued t = true
may_follow running queued = false
may_follow running t = true
may_follow done done = true
may_follow done t = false
may_follow failed failed = true
may_follow failed t = false
may_follow cancelled cancelled = true
may_follow cancelled t = false
may_follow session_superseded session_superseded = true
may_follow session_superseded t = false

may_follow_refl : (s : JobStatus) → may_follow s s ≡ true
may_follow_refl queued = refl
may_follow_refl _ = refl

may_follow_trans :
    (s t u : JobStatus) → may_follow s t ≡ true → may_follow t u ≡ true → may_follow s u ≡ true
may_follow_trans s t u h k = ground arith

may_follow_final :
    (s t : JobStatus) → is_active s ≡ true → is_active t ≡ false → may_follow s t ≡ true
may_follow_final s t h k = ground arith

final_stays : (s t : JobStatus) → is_active s ≡ false → may_follow s t ≡ true → t ≡ s
final_stays s t h k = ground arith

-- The status of a job in a table.
abbrev status_in : ℕ → List WriteJob → Option JobStatus
status_in i jobs = elim (first (has_id i) jobs) [ none ↦ none | some job ↦ some job.status ]

-- What a table says of a job may follow what another says.
abbrev Follows : ℕ → List WriteJob → List WriteJob → Type 0
Follows i jobs jobs' =
    (s : JobStatus)
    → status_in i jobs ≡ some s
    → (t : JobStatus) × (status_in i jobs' ≡ some t) × (may_follow s t ≡ true)

Follows-refl : (i : ℕ) (jobs : List WriteJob) → Follows i jobs jobs
Follows-refl i jobs s h = (s, h, may_follow_refl s)

Follows-update :
    (i : ℕ) (test : WriteJob → Bool) (change : WriteJob → WriteJob) (jobs : List WriteJob)
    → ((job : WriteJob) → (change job).id ≡ job.id)
    → ((job : WriteJob) → test job ≡ true → may_follow job.status (change job).status ≡ true)
    → Follows i jobs (update_where test change jobs)
unfolding update_where
Follows-update i test change [] k m s h = cc
Follows-update i test change (job ∷ jobs) k m s h = elim (Bool-cases (test job)) [
  | inl e ↦ elim (Bool-cases (job.id == i)) [
    | inl q ↦ (
      (change job).status,
      rw e (ground (arith, k job)),
      (let p : job.status ≡ s = ground arith in rw (← p) (m job e)),
    )
    | inr q ↦
        let (t, f, g) = Follows-update i test change jobs k m s (ground arith) in
        (t, rw e (ground (arith, k job, f)), g)
  ]
  | inr e ↦ elim (Bool-cases (job.id == i)) [
    | inl q ↦ (s, rw e (ground arith), may_follow_refl s)
    | inr q ↦
        let (t, f, g) = Follows-update i test change jobs k m s (ground arith) in
        (t, rw e (ground (arith, f)), g)
  ]
]

Follows-append : (i : ℕ) (jobs more : List WriteJob) → Follows i jobs (jobs ++ more)
Follows-append i [] more s h = cc
Follows-append i (job ∷ jobs) more s h = elim (Bool-cases (job.id == i)) [
  | inl q ↦ (s, ground arith, may_follow_refl s)
  | inr q ↦ let (t, f, g) = Follows-append i jobs more s (ground arith) in (t, ground (arith, f), g)
]

-- A statement changes the job table by an update of some rows, by an insertion, or not at all.
-- What stays to be shown of an update is that its VALUES may follow what its WHERE selects.
claim-Follows :
    (i job_id cutoff : ℕ) (db : Db) → Follows i db.jobs (claim_job job_id cutoff db).1.jobs
unfolding claim_job
claim-Follows i job_id cutoff db =
    Follows-update i (is_claimable job_id cutoff) (start_job db.now) db.jobs (λ job. refl)
      (λ job e. queued_starts job.status (ground arith))
  where
    queued_starts : (s : JobStatus) → is_queued s ≡ true → may_follow s running ≡ true
    queued_starts s h = ground arith

finish-Follows :
    (i job_id : ℕ) (status : JobStatus) (db : Db)
    → is_active status ≡ false
    → Follows i db.jobs (finish_job job_id status db).1.jobs
unfolding finish_job
finish-Follows i job_id status db f =
    Follows-update i (is_active_with job_id) (end_job status db.now) db.jobs (λ job. refl)
      (λ job e. may_follow_final job.status status (ground arith) f)

sweep-Follows :
    (i cutoff : ℕ) (db : Db) → Follows i db.jobs (cancel_stale_active_jobs cutoff db).1.jobs
unfolding cancel_stale_active_jobs
sweep-Follows i cutoff db =
    Follows-update i (is_stale cutoff) (end_job cancelled db.now) db.jobs (λ job. refl)
      (λ job e. may_follow_final job.status cancelled (ground arith) refl)

pub upsert-jobs : (student_no : Text) (db : Db) → (upsert_student student_no db).1.jobs ≡ db.jobs
unfolding upsert_student
upsert-jobs student_no db = ground arith

login-Follows :
    (i : ℕ) (student_no : Text) (db : Db)
    → Follows i db.jobs (record_successful_login student_no db).1.jobs
unfolding record_successful_login supersede_jobs
login-Follows i student_no db = rw (upsert-jobs student_no db) (
    Follows-update i (is_active_of (upsert_student student_no db).0)
      (end_job session_superseded (upsert_student student_no db).1.now) db.jobs (λ job. refl)
      (λ job e. may_follow_final job.status session_superseded (ground arith) refl))

pub created_jobs :
    (student_id : ℕ) (ops : List CanonicalOp) (payload_hash : Text) (db db' : Db) (job : WriteJob)
    → create_queued_job student_id ops payload_hash db ≡ ok (job, db')
    → (any (has_active_hash payload_hash) db.jobs ≡ false)
      × (db'.jobs ≡ db.jobs ++ (new_job db.next_job student_id ops payload_hash db.now ∷ []))
unfolding create_queued_job
created_jobs student_id ops payload_hash db db' job h = ground arith

Step-Follows : {db db' : Db} (i : ℕ) → Step db db' → Follows i db.jobs db'.jobs
Step-Follows {db} {db'} i (created student_id ops payload_hash job h) =
    rw ((created_jobs student_id ops payload_hash db db' job h).1) (Follows-append i db.jobs _)
Step-Follows {db} i (claimed job_id cutoff e) = rw e (claim-Follows i job_id cutoff db)
Step-Follows {db} i (finished job_id status f e) = rw e (finish-Follows i job_id status db f)
Step-Follows {db} i (swept cutoff e) = rw e (sweep-Follows i cutoff db)
Step-Follows {db} i (logged_in student_no e) = rw e (login-Follows i student_no db)
Step-Follows {db} i (audited job_id ops payload_hash stuid_hash e) =
    rw e (unfold insert_pending_audits in Follows-refl i db.jobs)
Step-Follows {db} i (written_back updates e) =
    rw e (unfold apply_audit_outcomes in Follows-refl i db.jobs)
Step-Follows {db} i (waited now e) = rw e (Follows-refl i db.jobs)

-- Whatever statements are made, a job that is in the table stays there, and its status is one that
-- may follow the status that it had.
pub Reach-status :
    {db db' : Db} (i : ℕ) (s : JobStatus)
    → Reach db db'
    → read_job_status i db ≡ some s
    → (t : JobStatus) × (read_job_status i db' ≡ some t) × (may_follow s t ≡ true)
unfolding read_job_status read_job
Reach-status i s untouched h = (s, h, may_follow_refl s)
Reach-status i s (followed r st) h =
    let (t, e, f) = Reach-status i s r h in
    let (u, e', g) = Step-Follows i st t e in (u, e', may_follow_trans s t u f g)

-- A job that is done, failed, cancelled or superseded keeps that status, whatever statements are
-- made.
pub Reach-final :
    {db db' : Db} (i : ℕ) (s : JobStatus)
    → is_active s ≡ false
    → Reach db db'
    → read_job_status i db ≡ some s
    → read_job_status i db' ≡ some s
Reach-final i s f r h = let (t, e, g) = Reach-status i s r h in e ∙ ap some (final_stays s t f g)
