-- ===== src/Write/Submit/Replies.antt =====
-- The outcomes of a submission (backend/app/api/write_submit.py), branch by branch.
use nsysu_crs.Common.{
  ℕ, ◌+◌, Text, text_eq, codes, ◌≡◌, refl, ◌∙◌, ◌⊎◌, inl, inr, Bool, true, false, Option, none,
  some, List, [], ◌∷◌, ◌++◌, any, leb, ltb, Bool-cases, Option-cases, Result-cases, ok, arith,
}
use nsysu_crs.Auth.Redis.{FakeRedis, set, delete, incr, expire, rpush, get}
use nsysu_crs.Common.Decimal.{digits_value}
use nsysu_crs.Auth.Breaker.{
  streak_key, opened_at_key, probe_key, probe_gate_seconds, SchoolBreaker, admit, record_classified,
  record_unknown,
}
use nsysu_crs.Auth.Sessions.{store_selcrs, store_jar_pair, selcrs_key, selcrs_hard_key}
use nsysu_crs.Auth.Tokens.{ConfirmRecord}
use nsysu_crs.Write.Canonical.{CanonicalOp, parse_canonical_segments, payload_hash}
use nsysu_crs.Write.Jobs.{WriteJob, Db, find_active_job_by_hash, create_queued_job, find_student_id}
use nsysu_crs.Write.Queue.{TicketJson, enqueue_ticket, write_queue_key, serialize_ticket}
use nsysu_crs.Write.Queue.Turns.{waiting}
use nsysu_crs.Write.Submit.{
  Sso2Result, Reply, error, error_job_id, error_school_msg, accepted, redis_unavailable, Site,
  Stores, duplicate_job, is_credential_fail, ticket_for, with_jar, insert_job, create_job,
  submit_ops, after_login, log_in,
}

-- The keys of the sessions and of the breaker are not that of the queue.
waiting-set :
    (name value : Text) (nx : Bool) (ex : Option ℕ) (r : FakeRedis)
    → text_eq write_queue_key name ≡ false
    → waiting (set name value nx ex r).1 ≡ waiting r
unfolding set
waiting-set name value nx ex r h = ground arith

waiting-delete :
    (names : List Text) (r : FakeRedis)
    → any (text_eq write_queue_key) names ≡ false
    → waiting (delete names r) ≡ waiting r
unfolding delete
waiting-delete names r h = rw h refl

waiting-record_classified :
    (b : SchoolBreaker) (r : FakeRedis) → waiting (record_classified b r) ≡ waiting r
unfolding record_classified text_eq
waiting-record_classified b r = waiting-delete _ r refl

waiting-admit :
    (b : SchoolBreaker) (nonce : Text) (r : FakeRedis) → waiting (admit b nonce r).1 ≡ waiting r
unfolding admit text_eq
waiting-admit b nonce r = elim (Option-cases (get opened_at_key r)) [
  | inl e ↦ rw (e, admit) refl
  | inr (opened_at, e) ↦ elim (Bool-cases (ltb r.now (digits_value opened_at + b.recovery_after))) [
    | inl f ↦ rw (e, admit, f) refl
    | inr f ↦ rw (e, admit, f) (waiting-set probe_key nonce true (some probe_gate_seconds) r refl)
  ]
]

waiting-record_unknown :
    (b : SchoolBreaker) (r : FakeRedis) → waiting (record_unknown b r).1 ≡ waiting r
unfolding record_unknown text_eq incr expire
waiting-record_unknown b r = elim (Bool-cases (leb b.failure_threshold (incr streak_key r).0)) [
  | inl e ↦
      rw (e, record_unknown)
        (waiting-delete (probe_key ∷ []) _ refl ∙ waiting-set opened_at_key _ false none _ refl)
  | inr e ↦ rw (e, record_unknown) refl
]

waiting-store_selcrs :
    (session_id payload : Text) (sliding hard : ℕ) (r : FakeRedis)
    → waiting (store_selcrs session_id payload sliding hard r) ≡ waiting r
unfolding store_selcrs store_jar_pair selcrs_key selcrs_hard_key text_eq
waiting-store_selcrs session_id payload sliding hard r =
    waiting-set (selcrs_hard_key session_id) (codes "1") true (some hard) _ refl
    ∙ waiting-set (selcrs_key session_id) payload false (some sliding) r refl

-- The replies behind the insertion of a job.
abbrev pub is_created : Reply → Bool
is_created (error status detail) = false
is_created (error_job_id status detail id) = false
is_created (error_school_msg status detail school_msg) = false
is_created (accepted id phash) = true
is_created redis_unavailable = true

module _ (site : Site) where
  -- No job was inserted: the queue is as it was, and the tables are as the other transactions
  -- left them.
  pub record IsRefused (before : List Text) (db : Db) (res : Reply × Stores) : Type 0 where
    pub told : is_created res.0 ≡ false
    pub waits : waiting res.1.redis ≡ before
    pub tables : (res.1.db ≡ db) ⊎ (res.1.db ≡ site.before_reread (site.before_insert db))

  abbrev pub hash_of : Text → List CanonicalOp → Text
  hash_of student_no ops = payload_hash site.sha256_hex student_no ops

  abbrev pub ticket_text : Text → Text → ConfirmRecord → WriteJob → Text
  ticket_text session_id student_no entitled job =
      serialize_ticket site.tickets (ticket_for session_id student_no entitled job)

  -- 202: one job more, of the student, with the parsed operations and their hash, and its ticket
  -- behind the others.
  pub record IsQueued (student_no : Text) (session : Option Text) (entitled : ConfirmRecord)
      (before : List Text) (db : Db) (res : Reply × Stores) : Type 0 where
    pub session_id : Text
    pub ops : List CanonicalOp
    pub student_id : ℕ
    pub job : WriteJob
    pub cookie : session ≡ some session_id
    pub parsed : parse_canonical_segments entitled.canonical_ops ≡ some ops
    pub known : find_student_id student_no db ≡ some student_id
    pub free : find_active_job_by_hash (hash_of student_no ops) db ≡ none
    pub created :
        create_queued_job student_id ops (hash_of student_no ops) (site.before_insert db)
        ≡ ok (job, res.1.db)
    pub told : res.0 ≡ accepted job.id (hash_of student_no ops)
    pub waits :
        waiting res.1.redis ≡ before ++ (ticket_text session_id student_no entitled job ∷ [])

  -- 503, since Redis does not take the ticket: one job more, as with 202, and the queue as it was.
  pub record IsOrphaned (student_no : Text) (session : Option Text) (entitled : ConfirmRecord)
      (before : List Text) (db : Db) (res : Reply × Stores) : Type 0 where
    pub session_id : Text
    pub ops : List CanonicalOp
    pub student_id : ℕ
    pub job : WriteJob
    pub cookie : session ≡ some session_id
    pub parsed : parse_canonical_segments entitled.canonical_ops ≡ some ops
    pub known : find_student_id student_no db ≡ some student_id
    pub free : find_active_job_by_hash (hash_of student_no ops) db ≡ none
    pub created :
        create_queued_job student_id ops (hash_of student_no ops) (site.before_insert db)
        ≡ ok (job, res.1.db)
    pub untaken : site.pushes ≡ false
    pub told : res.0 ≡ redis_unavailable
    pub waits : waiting res.1.redis ≡ before

  waiting-enqueue :
      (t : TicketJson) (ticket : _) (r : FakeRedis)
      → waiting (enqueue_ticket t ticket r) ≡ waiting r ++ (serialize_ticket t ticket ∷ [])
  unfolding enqueue_ticket rpush text_eq
  waiting-enqueue t ticket r = refl

  abbrev pub Answers : Text → Option Text → ConfirmRecord → List Text → Db → Reply × Stores → Type 0
  Answers student_no session entitled before db res =
      IsRefused before db res
      ⊎ (IsQueued student_no session entitled before db res
          ⊎ IsOrphaned student_no session entitled before db res)

  duplicate_refuses : (found : Option WriteJob) → is_created (duplicate_job found) ≡ false
  duplicate_refuses none = refl
  duplicate_refuses (some job) = refl

  create_job-Answers :
      (session_id student_no : Text) (entitled : ConfirmRecord) (ops : List CanonicalOp)
      (s : Stores)
      → parse_canonical_segments entitled.canonical_ops ≡ some ops
      → Answers student_no
          (some session_id)
          entitled
          (waiting s.redis)
          s.db
          (create_job site session_id student_no entitled ops s)
  unfolding create_job insert_job
  create_job-Answers session_id student_no entitled ops s p =
      let phash = hash_of student_no ops in
      let db = site.before_insert s.db in
      elim (Option-cases (find_student_id student_no s.db)) [
        | inl e ↦ rw (e, create_job) (inl (record { told = refl; waits = refl; tables = inl refl }))
        | inr (student_id, e) ↦ elim (Option-cases (find_active_job_by_hash phash s.db)) [
          | inr (job, f) ↦
              rw (e, create_job, f) (inl (record { told = refl; waits = refl; tables = inl refl }))
          | inl f ↦ elim (Result-cases (create_queued_job student_id ops phash db)) [
            | inl (d, g) ↦
                rw (e, create_job, f, insert_job, g)
                  (inl (record { told = duplicate_refuses _; waits = refl; tables = inr refl }))
            | inr ((job, db'), g) ↦ elim (Bool-cases site.pushes) [
              | inl t ↦
                  rw (e, create_job, f, insert_job, g, t)
                    (inr (
                      inl (record {
                        session_id = session_id;
                        ops = ops;
                        student_id = student_id;
                        job = job;
                        cookie = refl;
                        parsed = p;
                        known = e;
                        free = f;
                        created = g;
                        told = refl;
                        waits =
                            waiting-enqueue site.tickets
                              (ticket_for session_id student_no entitled job) s.redis;
                      })))
              | inr t ↦
                  rw (e, create_job, f, insert_job, g, t)
                    (inr (
                      inr (record {
                        session_id = session_id;
                        ops = ops;
                        student_id = student_id;
                        job = job;
                        cookie = refl;
                        parsed = p;
                        known = e;
                        free = f;
                        created = g;
                        untaken = refl;
                        told = refl;
                        waits = refl;
                      })))
            ]
          ]
        ]
      ]

  pub moved :
      (before before' : List Text) (student_no : Text) (session : Option Text)
      (entitled : ConfirmRecord) (db : Db) (res : Reply × Stores)
      → before ≡ before'
      → Answers student_no session entitled before db res
      → Answers student_no session entitled before' db res
  moved before before' student_no session entitled db res e h = rw (← e) h

  pub refused :
      (before : List Text) (status : Reply) (s : Stores)
      → is_created status ≡ false
      → waiting s.redis ≡ before
      → IsRefused before s.db (status, s)
  refused before status s a e = record { told = a; waits = e; tables = inl refl }

  submit_ops-Answers :
      (session_id student_no : Text) (entitled : ConfirmRecord) (s : Stores)
      → Answers student_no
          (some session_id)
          entitled
          (waiting s.redis)
          s.db
          (submit_ops site session_id student_no entitled s)
  unfolding submit_ops
  submit_ops-Answers session_id student_no entitled s =
      elim (Option-cases (parse_canonical_segments entitled.canonical_ops)) [
        | inl e ↦ rw (e, submit_ops) (inl (refused _ _ s refl refl))
        | inr (ops, e) ↦
            rw (e, submit_ops) (create_job-Answers session_id student_no entitled ops s e)
      ]

  -- A submission that inserts a job has a login that did not fail.
  abbrev IsVerified : Sso2Result → Reply → Type 0
  IsVerified result reply = is_created reply ≡ true → is_credential_fail result.outcome ≡ false

  after_login-Answers :
      (session : Option Text) (student_no : Text) (entitled : ConfirmRecord) (result : Sso2Result)
      (s : Stores)
      → let res = after_login site session student_no entitled result s in
        Answers student_no session entitled (waiting s.redis) s.db res × IsVerified result res.0
  unfolding after_login
  after_login-Answers session student_no entitled result s =
      elim (Bool-cases (is_credential_fail result.outcome)) [
        | inl e ↦ rw (e, after_login) (inl (refused _ _ s refl refl), λ h. cc)
        | inr e ↦ elim (Option-cases session) [
          | inl f ↦ rw (e, after_login, f) (inl (refused _ _ s refl refl), λ h. refl)
          | inr (session_id, f) ↦
              rw (e, after_login, f)
                (
                  moved _ _ student_no (some session_id) entitled s.db _
                      (waiting-store_selcrs session_id (site.serialize_cookies result.cookies)
                        site.sliding_ttl site.hard_ttl s.redis)
                      (submit_ops-Answers session_id student_no entitled
                        (with_jar site session_id result s)),
                  λ h. refl,
                )
        ]
      ]

  -- The breaker admits, and the school takes the password.
  abbrev pub IsLogged : Text → Text → Reply → Type 0
  IsLogged student_no password reply =
      is_created reply ≡ true
      → (result : Sso2Result) × (site.login_sso2 student_no password ≡ some result)
        × (is_credential_fail result.outcome ≡ false)

  pub log_in-Answers :
      (password : Text) (session : Option Text) (student_no : Text) (entitled : ConfirmRecord)
      (s : Stores)
      → let res = log_in site password session student_no entitled s in
        Answers student_no session entitled (waiting s.redis) s.db res
        × IsLogged student_no password res.0
  unfolding log_in
  log_in-Answers password session student_no entitled s =
      let r = (admit site.breaker site.nonce s.redis).1 in
      let same = waiting-admit site.breaker site.nonce s.redis in
      elim (Bool-cases (admit site.breaker site.nonce s.redis).0) [
        | inr e ↦ rw (e, log_in) (inl (refused _ _ (record s { redis = r }) refl same), λ h. cc)
        | inl e ↦ elim (Option-cases (site.login_sso2 student_no password)) [
          | inl f ↦
              rw (e, log_in, f)
                (
                  inl (
                      refused _ _ (record s { redis = (record_unknown site.breaker r).1 }) refl
                        (waiting-record_unknown site.breaker r ∙ same)),
                  λ h. cc,
                )
          | inr (result, f) ↦
              let s' : Stores = record s { redis = record_classified site.breaker r } in
              let (a, v) = after_login-Answers session student_no entitled result s' in
              rw (e, log_in, f)
                (
                  moved _ _ student_no session entitled s.db _
                      (waiting-record_classified site.breaker r ∙ same) a,
                  λ h. (result, refl, v h),
                )
        ]
      ]
