-- ===== src/Write/Submit/Accepted.antt =====
-- What the answer to a confirmation (backend/app/api/write_submit.py) says of the two stores, and the
-- queue loop behind it.
use nsysu_crs.Common.{
  ℕ, Text, text_eq, ◌≡◌, refl, ap, ◌∙◌, ◌⊎◌, inl, inr, true, false, Option, some, List, [], ◌∷◌,
  ◌++◌, All, All-last, first, ◌==◌, sym, length, ◌≤◌, Bool-cases, Option-cases, ok, arith,
}
use nsysu_crs.Auth.Redis.{FakeRedis, getdel}
use nsysu_crs.Auth.Tokens.{ConfirmRecord, RecordJson, consume_confirm}
use nsysu_crs.Write.Canonical.{CanonicalOp}
use nsysu_crs.Write.Engine.{QueueTicket}
use nsysu_crs.Write.Jobs.{
  JobStatus, is_queued, Db, WriteJob, has_id, new_job, create_queued_job, read_job, read_job_status,
}
use nsysu_crs.Write.Queue.{Turn, Consumer, parse_ticket, serialize_ticket, write_queue_loop}
use nsysu_crs.Write.Queue.Turns.{waiting, IsWorking, HasStarted}
use nsysu_crs.Write.Queue.Drain.{write_queue_loop-drains}
use nsysu_crs.Write.Submit.{
  SubmitRequest, Reply, accepted, Site, Stores, Sso2Result, is_credential_fail, given, ticket_for,
  post_write_submit,
}
use nsysu_crs.Write.Submit.Replies.{
  is_created, IsRefused, IsQueued, IsOrphaned, log_in-Answers, refused, moved,
}

-- The record that the token stands for is the student's, and the school takes the password.
pub record IsConfirmed (site : Site) (body : SubmitRequest) (student_no : Text) (r : FakeRedis)
    (entitled : ConfirmRecord) : Type 0 where
  pub token : Text
  pub is_given : given body.confirm_token ≡ some token
  pub found : (consume_confirm site.records token r).0 ≡ some entitled
  pub owner : text_eq entitled.student_no student_no ≡ true
  pub result : Sso2Result
  pub answered : site.login_sso2 student_no body.password ≡ some result
  pub taken : is_credential_fail result.outcome ≡ false

waiting-consume_confirm :
    (json : RecordJson) (token : Text) (r : FakeRedis)
    → waiting (consume_confirm json token r).1 ≡ waiting r
unfolding consume_confirm getdel
waiting-consume_confirm json token r = refl

first-snoc :
    (i : ℕ) (jobs : List WriteJob) (job : WriteJob)
    → (job.id == i) ≡ true
    → (found : WriteJob) × (first (has_id i) (jobs ++ (job ∷ [])) ≡ some found)
first-snoc i [] job h = (job, rw h refl)
first-snoc i (j ∷ jobs) job h = elim (Bool-cases (j.id == i)) [
  | inl e ↦ (j, rw e refl)
  | inr e ↦ let (found, f) = first-snoc i jobs job h in (found, rw e f)
]

read_first :
    (i : ℕ) (db : Db) (found : WriteJob)
    → first (has_id i) db.jobs ≡ some found
    → read_job_status i db ≡ some found.status
unfolding read_job_status read_job
read_first i db found h = rw (h, read_job_status, read_job) refl

-- A job that was just created is in the table.
created_read :
    (student_id : ℕ) (ops : List CanonicalOp) (phash : Text) (db db' : Db) (job : WriteJob)
    → create_queued_job student_id ops phash db ≡ ok (job, db')
    → (s : JobStatus) × (read_job_status job.id db' ≡ some s)
unfolding create_queued_job
created_read student_id ops phash db db' job h =
    let made = new_job db.next_job student_id ops phash db.now in
    let new_id : job.id ≡ db.next_job = ground arith in
    let (found, e) = first-snoc job.id db.jobs made (ground arith) in
    let rows : db'.jobs ≡ db.jobs ++ (made ∷ []) = ground arith in
    (found.status, read_first job.id db' found (ap (first (has_id job.id)) rows ∙ e))

id_of : Reply → ℕ
id_of (accepted id phash) = id
id_of reply = 0

module _ (site : Site) (body : SubmitRequest) (session : Option Text) (student_no : Text) where
  -- Where Redis takes every command but perhaps the push of the ticket, a submission is either refused,
  -- with the queue as it was and the tables as the other transactions left them; or it inserts a job:
  -- the token's record is the student's, the school takes the password, and with the record's
  -- operations one job more is queued, whose hash no active job had. Then it is accepted, and the
  -- job's ticket stands behind the others; or Redis does not take the ticket, the answer is 503, and
  -- the queue is as it was.
  pub post_write_submit-Answers :
      (s : Stores)
      → let res = post_write_submit site body session student_no s in
        IsRefused site (waiting s.redis) s.db res
        ⊎ ((entitled : ConfirmRecord) × IsConfirmed site body student_no s.redis entitled
            × (IsQueued site student_no session entitled (waiting s.redis) s.db res
                ⊎ IsOrphaned site student_no session entitled (waiting s.redis) s.db res))
  unfolding post_write_submit
  post_write_submit-Answers s = elim (Option-cases (given body.confirm_token)) [
    | inl e ↦ rw (e, post_write_submit) (inl (refused site _ _ s refl refl))
    | inr (token, e) ↦
        let r = (consume_confirm site.records token s.redis).1 in
        let s' : Stores = record s { redis = r } in
        let same = waiting-consume_confirm site.records token s.redis in
        elim (Option-cases (consume_confirm site.records token s.redis).0) [
          | inl f ↦ rw (e, post_write_submit, f) (inl (refused site _ _ s' refl same))
          | inr (entitled, f) ↦ elim (Bool-cases (text_eq entitled.student_no student_no)) [
            | inr g ↦ rw (e, post_write_submit, f, g) (inl (refused site _ _ s' refl same))
            | inl g ↦
                let (answers, v) =
                  log_in-Answers site body.password session student_no entitled s' in
                rw (e, post_write_submit, f, g)
                  (elim (moved site _ _ student_no session entitled s.db _ same answers) [
                    | inl refusal ↦ inl refusal
                    | inr (inl queued) ↦
                        let (result, h, k) = v (ap is_created queued.told) in
                        inr (entitled, confirmed token entitled result e f g h k, inl queued)
                    | inr (inr orphaned) ↦
                        let (result, h, k) = v (ap is_created orphaned.told) in
                        inr (entitled, confirmed token entitled result e f g h k, inr orphaned)
                  ])
          ]
        ]
  ]
    where
      confirmed :
          (token : Text) (entitled : ConfirmRecord) (result : Sso2Result)
          → given body.confirm_token ≡ some token
          → (consume_confirm site.records token s.redis).0 ≡ some entitled
          → text_eq entitled.student_no student_no ≡ true
          → site.login_sso2 student_no body.password ≡ some result
          → is_credential_fail result.outcome ≡ false
          → IsConfirmed site body student_no s.redis entitled
      confirmed token entitled result e f g h k = record {
        token = token;
        is_given = e;
        found = f;
        owner = g;
        result = result;
        answered = h;
        taken = k;
      }

  -- An accepted job does not wait for ever: the loop reads the ticket that the submission wrote, and
  -- after as many turns as tickets wait, with nothing pushed in between, the job is no longer queued.
  -- The JSON of its ticket is read back as the ticket, and other transactions are statements.
  pub post_write_submit-starts :
      {Jar : Type 0} (sweep_interval next_sweep id : ℕ) (phash : Text) (turns : List (Turn Jar))
      (s : Stores)
      → (post_write_submit site body session student_no s).0 ≡ accepted id phash
      → ((ticket : QueueTicket) → site.tickets.validate (site.tickets.dump ticket) ≡ some ticket)
      → All (λ (turn : Turn Jar). (turn.pushed ≡ []) × IsWorking site.tickets turn) turns
      → let after = (post_write_submit site body session student_no s).1 in
        length (waiting after.redis) ≤ length turns
        → (t : JobStatus) × (read_job_status id
              (write_queue_loop site.tickets sweep_interval turns (record {
                redis = after.redis;
                db = after.db;
                next_sweep = next_sweep;
                contacts = [];
              })).db
            ≡ some t)
          × (is_queued t ≡ false)
  unfolding id_of serialize_ticket parse_ticket
  post_write_submit-starts sweep_interval next_sweep id phash turns s e json w n =
      elim (post_write_submit-Answers s) [
        | inl refusal ↦ absurd (cc (refusal.told, ap is_created e))
        | inr (entitled, confirmed, inr orphaned) ↦ absurd (cc (orphaned.told, e))
        | inr (entitled, confirmed, inl queued) ↦
            let after = (post_write_submit site body session student_no s).1 in
            let ticket = ticket_for queued.session_id student_no entitled queued.job in
            let c : Consumer = record {
              redis = after.redis;
              db = after.db;
              next_sweep = next_sweep;
              contacts = [];
            } in
            let ends = write_queue_loop site.tickets sweep_interval turns c in
            let (empty, started) =
              write_queue_loop-drains site.tickets sweep_interval turns c w n in
            let split : All (HasStarted site.tickets c.db ends.db)
                (waiting s.redis ++ (site.tickets.dump ticket ∷ [])) =
              rw queued.waits at started in
            let (status, there) =
              created_read queued.student_id queued.ops _ _ after.db queued.job queued.created in
            let same : queued.job.id ≡ id = ap id_of (sym queued.told ∙ e) in
            rw (← same) (
              All-last (HasStarted site.tickets c.db ends.db) (waiting s.redis)
                (site.tickets.dump ticket) split ticket status (json ticket) there)
      ]
