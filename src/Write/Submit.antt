-- ===== src/Write/Submit.antt =====
-- backend/app/api/write_submit.py: the confirmation of a previewed batch, from the token to the queued
-- job and its ticket. The login at the school, the hash and the JSON are parameters.
pub mod Replies
pub mod Accepted
use nsysu_crs.Common.{
  ℕ, Text, codes, text_eq, Bool, true, false, Option, none, some, List, [], ◌∷◌, if◌then◌else◌,
  String, Result, ok, raise,
}
use nsysu_crs.Auth.Breaker.{SchoolBreaker, admit, record_classified, record_unknown}
use nsysu_crs.Auth.Redis.{FakeRedis}
use nsysu_crs.Auth.Sessions.{store_selcrs}
use nsysu_crs.Auth.Tokens.{ConfirmRecord, RecordJson, consume_confirm}
use nsysu_crs.Write.Canonical.{CanonicalOp, parse_canonical_segments, payload_hash}
use nsysu_crs.Write.Engine.{QueueTicket}
use nsysu_crs.Write.Jobs.{WriteJob, Db, find_active_job_by_hash, create_queued_job, find_student_id}
use nsysu_crs.Write.Queue.{TicketJson, enqueue_ticket}

pub data Sso2Outcome : Type 0 where
  success credential_fail : Sso2Outcome

pub record Sso2Result : Type 0 where
  pub outcome : Sso2Outcome
  pub cookies : List (Text × Text)
  pub detail : Option Text

pub record SubmitRequest : Type 0 where
  pub confirm_token : Option Text
  pub password : Text

-- A response: the status code and the detail, with the extra of `_error` if it has one; or the
-- identifier and the hash of the queued job, with 202. `redis_unavailable` is the 503 that main.py
-- makes of a RedisError.
pub data Reply : Type 0 where
  error : ℕ → Text → Reply
  error_job_id : ℕ → Text → ℕ → Reply
  error_school_msg : ℕ → Text → Option Text → Reply
  accepted : ℕ → Text → Reply
  redis_unavailable : Reply

-- `before_insert` and `before_reread` are what other transactions do before the insertion, and
-- before the second read of a duplicate; `none` is SelcrsUnavailable. `pushes` says whether Redis takes
-- the push of the ticket.
pub record Site : Type 0 where
  pub breaker : SchoolBreaker
  pub nonce : Text
  pub records : RecordJson
  pub tickets : TicketJson
  pub login_sso2 : Text → Text → Option Sso2Result
  pub serialize_cookies : List (Text × Text) → Text
  pub sha256_hex : Text → Text
  pub sliding_ttl : ℕ
  pub hard_ttl : ℕ
  pub pushes : Bool
  pub before_insert : Db → Db
  pub before_reread : Db → Db

-- The two stores.
pub record Stores : Type 0 where
  pub redis : FakeRedis
  pub db : Db

abbrev pub unknown_token : Reply
unknown_token = error 409 (codes "confirm_token_unknown")

abbrev pub duplicate_job : Option WriteJob → Reply
duplicate_job none = error 409 (codes "duplicate_active_job")
duplicate_job (some job) = error_job_id 409 (codes "duplicate_active_job") job.id

abbrev pub school_unavailable : Reply
school_unavailable = error 503 (codes "school_unavailable")

abbrev pub is_credential_fail : Sso2Outcome → Bool
is_credential_fail success = false
is_credential_fail credential_fail = true

abbrev pub ticket_for : Text → Text → ConfirmRecord → WriteJob → QueueTicket
ticket_for session_id student_no entitled job = record {
  job_id = job.id;
  session_ref = session_id;
  student_no = student_no;
  canonical_ops = entitled.canonical_ops;
  variant = entitled.variant;
  form_url = entitled.form_url;
}

-- `if not body.confirm_token`
abbrev pub given : Option Text → Option Text
given none = none
given (some []) = none
given (some (c ∷ t)) = some (c ∷ t)

module _ (site : Site) where
  -- From the insertion of the job to the ticket.
  unfoldable pub insert_job :
      Text → Text → ConfirmRecord → List CanonicalOp → Text → ℕ → Stores → Reply × Stores
  insert_job session_id student_no entitled ops phash student_id s =
      let db = site.before_insert s.db in
      elim (create_queued_job student_id ops phash db) [
        | raise e ↦
            let db' = site.before_reread db in
            (duplicate_job (find_active_job_by_hash phash db'), record s { db = db' })
        | ok (job, db') ↦
            if site.pushes
            then (
              accepted job.id phash,
              record {
                redis =
                    enqueue_ticket site.tickets (ticket_for session_id student_no entitled job)
                      s.redis;
                db = db';
              },
            )
            else (redis_unavailable, record s { db = db' })
      ]

  unfoldable pub create_job :
      Text → Text → ConfirmRecord → List CanonicalOp → Stores → Reply × Stores
  create_job session_id student_no entitled ops s =
      let phash = payload_hash site.sha256_hex student_no ops in
      elim (find_student_id student_no s.db) [
        | none ↦ (error 409 (codes "student_identity_missing"), s)
        | some student_id ↦ elim (find_active_job_by_hash phash s.db) [
          | some job ↦ (duplicate_job (some job), s)
          | none ↦ insert_job session_id student_no entitled ops phash student_id s
        ]
      ]

  unfoldable pub submit_ops : Text → Text → ConfirmRecord → Stores → Reply × Stores
  submit_ops session_id student_no entitled s =
      elim (parse_canonical_segments entitled.canonical_ops) [
        | none ↦ (unknown_token, s)
        | some ops ↦ create_job session_id student_no entitled ops s
      ]

  abbrev pub with_jar : Text → Sso2Result → Stores → Stores
  with_jar session_id result s = record s {
    redis =
        store_selcrs session_id (site.serialize_cookies result.cookies) site.sliding_ttl
          site.hard_ttl s.redis;
  }

  -- Behind a classified login.
  unfoldable pub after_login :
      Option Text → Text → ConfirmRecord → Sso2Result → Stores → Reply × Stores
  after_login session student_no entitled result s =
      if is_credential_fail result.outcome
      then (error_school_msg 401 (codes "invalid_credentials") result.detail, s)
      else elim session [
        | none ↦ (error 401 (codes "not_authenticated"), s)
        | some session_id ↦ submit_ops session_id student_no entitled (with_jar session_id result s)
      ]

  -- The breaker, and the password at the school.
  unfoldable pub log_in : Text → Option Text → Text → ConfirmRecord → Stores → Reply × Stores
  log_in password session student_no entitled s =
      let (admitted, r) = admit site.breaker site.nonce s.redis in
      if admitted
      then elim (site.login_sso2 student_no password) [
        | none ↦ (school_unavailable, record s { redis = (record_unknown site.breaker r).1 })
        | some result ↦
            after_login session student_no entitled result
              (record s { redis = record_classified site.breaker r })
      ]
      else (school_unavailable, record s { redis = r })

  -- The handler: `session` is the cookie, `student_no` its owner.
  unfoldable pub post_write_submit : SubmitRequest → Option Text → Text → Stores → Reply × Stores
  post_write_submit body session student_no s = elim (given body.confirm_token) [
    | none ↦ (error 400 (codes "confirm_token_required"), s)
    | some token ↦
        let (found, r) = consume_confirm site.records token s.redis in
        let s' : Stores = record s { redis = r } in
        elim found [
          | none ↦ (unknown_token, s')
          | some entitled ↦
              if text_eq entitled.student_no student_no
              then log_in body.password session student_no entitled s'
              else (unknown_token, s')
        ]
  ]
