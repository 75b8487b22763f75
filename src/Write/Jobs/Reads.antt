-- ===== src/Write/Jobs/Reads.antt =====
-- backend/app/write/jobs.py: the reads of the jobs API. A query is what its WHERE, ORDER BY and LIMIT
-- say.
use nsysu_crs.Common.{
  ℕ, Bool, ◌&&◌, ◌||◌, Option, List, [], ◌∷◌, first, keep, any, take, ltb, ◌==◌, if◌then◌else◌,
}
use nsysu_crs.Write.Jobs.{WriteJob, WriteAudit, Db}

-- ORDER BY: `before a b` says that the row `a` comes before the row `b`.
unfoldable pub insert_row : {A : Type 0} → (A → A → Bool) → A → List A → List A
insert_row before row [] = row ∷ []
insert_row before row (r ∷ rows) =
    let later = r ∷ insert_row before row rows in if before r row then later else row ∷ r ∷ rows

unfoldable pub order_by : {A : Type 0} → (A → A → Bool) → List A → List A
order_by before [] = []
order_by before (r ∷ rows) = insert_row before r (order_by before rows)

abbrev pub is_newer : WriteJob → WriteJob → Bool
is_newer a b = ltb b.created_at a.created_at || (a.created_at == b.created_at && ltb b.id a.id)

abbrev pub is_older : WriteAudit → WriteAudit → Bool
is_older a b = ltb a.created_at b.created_at || (a.created_at == b.created_at && ltb a.id b.id)

unfoldable pub load_job_for_owner : ℕ → ℕ → Db → Option WriteJob
load_job_for_owner job_id student_id db =
    first (λ (job : WriteJob). job.id == job_id && job.student_id == student_id) db.jobs

unfoldable pub load_jobs_for_owner : ℕ → ℕ → Db → List WriteJob
load_jobs_for_owner student_id limit db =
    take limit (order_by is_newer (keep (λ (job : WriteJob). job.student_id == student_id) db.jobs))

unfoldable pub load_audits : ℕ → Db → List WriteAudit
load_audits job_id db = order_by is_older (keep (λ (a : WriteAudit). a.job_id == job_id) db.audits)

unfoldable pub load_audits_for_jobs : List ℕ → Db → List WriteAudit
load_audits_for_jobs [] db = []
load_audits_for_jobs (id ∷ ids) db =
    order_by is_older (keep (λ (a : WriteAudit). any (λ i. a.job_id == i) (id ∷ ids)) db.audits)
