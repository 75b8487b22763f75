-- ===== src/Write/JobView/Owned.antt =====
-- Which jobs backend/app/api/write_jobs.py shows.
use nsysu_crs.Common.{
  ℕ, Text, ◌≡◌, refl, sym, ◌⊎◌, inl, inr, Bool, true, false, Option, none, some, List, [], ◌∷◌, any,
  first, get_elem?, suc, ◌&&◌, ◌==◌, arith, Bool-cases, Option-cases,
}
use mathlib.Core.Option.{some-injective}
use nsysu_crs.Write.Jobs.{WriteJob, Db, find_student_id}
use nsysu_crs.Write.Jobs.Reads.{load_job_for_owner, load_audits}
use nsysu_crs.Write.JobView.{JobView, compose_view, get_write_job}

-- The row of a job and its owner.
abbrev pub is_row_of : ℕ → ℕ → WriteJob → Bool
is_row_of id student_id job = job.id == id && job.student_id == student_id

first-some :
    {A : Type 0} (test : A → Bool) (xs : List A) (x : A) → first test xs ≡ some x → test x ≡ true
first-some test [] x h = cc
first-some test (y ∷ ys) x h = elim (Bool-cases (test y)) [
  | inl e ↦ rw (sym (some-injective y x (rw e at h))) e
  | inr e ↦ first-some test ys x (ground arith)
]

-- The first one is an element.
first-member :
    {A : Type 0} (test : A → Bool) (xs : List A) (x : A)
    → first test xs ≡ some x
    → (i : ℕ) × (get_elem? xs i ≡ some x)
first-member test [] x h = cc
first-member test (y ∷ ys) x h = elim (Bool-cases (test y)) [
  | inl e ↦ (0, rw e at h)
  | inr e ↦ let (i, m) = first-member test ys x (ground arith) in (suc i, m)
]

first-none :
    {A : Type 0} (test : A → Bool) (xs : List A) → first test xs ≡ none → any test xs ≡ false
first-none test [] h = refl
first-none test (y ∷ ys) h = elim (Bool-cases (test y)) [
  | inl e ↦ cc (rw e at h)
  | inr e ↦ ground (arith, first-none test ys)
]

-- What the handler answers about an identifier: nothing, if the student has no such job, or the view of
-- a row of the table that is the student's.
abbrev pub IsOwnView : ℕ → ℕ → Db → Option JobView → Type 0
IsOwnView id student_id db answer =
    ((answer ≡ none) × (any (is_row_of id student_id) db.jobs ≡ false))
    ⊎ ((i : ℕ) × (job : WriteJob) × (get_elem? db.jobs i ≡ some job)
        × (is_row_of id student_id job ≡ true)
        × (answer ≡ some (compose_view job (load_audits job.id db))))

-- A known student who asks for a well-formed identifier gets nothing, and then no row with it is the
-- student's; or gets the view of a row of the table with it that is the student's, with the audits of
-- that job.
pub get_write_job-IsOwnView :
    (uuid_of : Text → Option ℕ) (job_id student_no : Text) (db : Db) (id student_id : ℕ)
    → uuid_of job_id ≡ some id
    → find_student_id student_no db ≡ some student_id
    → IsOwnView id student_id db (get_write_job uuid_of job_id student_no db)
unfolding get_write_job load_job_for_owner
get_write_job-IsOwnView uuid_of job_id student_no db id student_id u f =
    elim (Option-cases (load_job_for_owner id student_id db)) [
      | inl e ↦
          inl (rw (u, f, e, get_write_job) refl, first-none (is_row_of id student_id) db.jobs e)
      | inr (job, e) ↦
          let (i, m) = first-member (is_row_of id student_id) db.jobs job e in
          inr (
            i,
            job,
            m,
            first-some (is_row_of id student_id) db.jobs job e,
            rw (u, f, e, get_write_job) refl,
          )
    ]
