-- ===== src/Write/Engine/Ticket.antt =====
-- What `execute_ticket` of backend/app/write/engine.py does as a whole.
use nsysu_crs.Common.{
  ◌≡◌, ◌≢◌, refl, true, false, Result, ok, raise, Option, none, some, List, [], arith, ◌⊎◌, inl,
  inr, Bool-cases, Option-cases,
}
use nsysu_crs.Write.Canonical.{CanonicalOp, parse_canonical_segments, payload_hash}
use nsysu_crs.Write.Jobs.{
  JobStatus, failed, cancelled, is_active, is_queued, finish_job, WriteJob, Db, claim_job,
  read_job_status, insert_pending_audits, apply_audit_outcomes,
}
use nsysu_crs.Write.Jobs.Audits.{length-insert_pending_audits, finish_job_ended}
use nsysu_crs.Write.Engine.{
  Crash, is_running, is_waiting, at_refused, at_cancel, QueueTicket, Contact, Worker, Moment,
  at_audit, at_claim, at_end, Settled, finalize, run_claimed, refuse, finish_failed, at_corrupt,
  at_sink_down, execute_ticket,
}
use nsysu_crs.Write.Engine.Bounds.{IsBounded, only_fetches}
use nsysu_crs.Write.Engine.Contacts.{Settles, IsStopped, execute_claimed-Settles}

-- The job does not wait any more.
abbrev pub IsStarted : QueueTicket → Db → Type 0
IsStarted ticket db =
    (status : JobStatus) → read_job_status ticket.job_id db ≡ some status → is_queued status ≡ false

not_queued : (s : JobStatus) → is_active s ≡ false → is_queued s ≡ false
not_queued s h = ground arith

pub finish-IsStarted :
    (ticket : QueueTicket) (status : JobStatus) (db : Db)
    → is_active status ≡ false
    → IsStarted ticket (finish_job ticket.job_id status db).1
finish-IsStarted ticket status db f s h =
    not_queued s (finish_job_ended ticket.job_id status db s f h)

not_waiting :
    (o : Option JobStatus) (s : JobStatus) → is_waiting o ≡ false → o ≡ some s → is_queued s ≡ false
not_waiting none s h e = cc
not_waiting (some t) s h e = ground arith

pub running-IsStarted :
    (ticket : QueueTicket) (db : Db)
    → is_running (read_job_status ticket.job_id db) ≡ true
    → IsStarted ticket db
running-IsStarted ticket db h status e = runs (read_job_status ticket.job_id db) status h e
  where
    runs :
        (o : Option JobStatus) (s : JobStatus)
        → is_running o ≡ true
        → o ≡ some s
        → is_queued s ≡ false
    runs none s h e = cc
    runs (some t) s h e = ground arith

module _ {Jar : Type 0} (w : Worker Jar) (ticket : QueueTicket) where
  abbrev parsed : Option (List CanonicalOp)
  parsed = parse_canonical_segments ticket.canonical_ops

  abbrev claim : Db → Option WriteJob × Db
  claim db = claim_job ticket.job_id w.cutoff (w.meanwhile at_claim db)

  abbrev pub Ended : Db → Type 0
  Ended db =
      (status : JobStatus)
      → read_job_status ticket.job_id db ≡ some status
      → is_active status ≡ false

  -- A run that returns, within its bounds, with the job ended; or one that is stopped.
  abbrev pub Ran : Result Crash (List Contact × Db) → Type 0
  Ran result =
      ((contacts : List Contact) × (db : Db) × (result ≡ ok (contacts, db))
        × IsBounded contacts
        × Ended db)
      ⊎ ((crash : Crash) × (result ≡ raise crash) × IsStopped w ticket crash)

  finalize-Ended :
      (s : Settled) (db : Db)
      → is_active s.status ≡ false
      → Ended (finalize w ticket s.updates s.status db)
  unfolding finalize
  finalize-Ended s db f status h =
      finish_job_ended ticket.job_id s.status (apply_audit_outcomes s.updates db) status f h

  failed-Ended : (m : Moment) (db : Db) → Ended (finish_failed w ticket m db)
  failed-Ended m db status h =
      finish_job_ended ticket.job_id failed (w.meanwhile m db) status refl h

  run_claimed-Ran : (ops : List CanonicalOp) (db : Db) → Ran (run_claimed w ticket ops db)
  unfolding run_claimed Settles
  run_claimed-Ran ops db = elim (Bool-cases w.sink_up) [
    | inr e ↦ inl (
      [],
      finish_failed w ticket at_sink_down db,
      rw e refl,
      only_fetches 0 (omega arith),
      failed-Ended at_sink_down db,
    )
    | inl e ↦
        let phash = payload_hash w.sha256_hex ticket.student_no ops in
        let stuid = w.audit_stuid_hash ticket.student_no in
        let inserted =
          insert_pending_audits ticket.job_id ops phash stuid (w.meanwhile at_audit db) in
        elim (execute_claimed-Settles w ticket ops inserted.0 inserted.1
          (length-insert_pending_audits ticket.job_id ops phash stuid (w.meanwhile at_audit db))) [
            | inl (s, f, settled) ↦ inl (
              s.contacts,
              finalize w ticket s.updates s.status (w.meanwhile at_end s.db),
              rw (f, e) refl,
              settled.bounded,
              finalize-Ended s (w.meanwhile at_end s.db) settled.ended,
            )
            | inr (crash, f, stopped) ↦ inr (crash, rw (f, e) refl, stopped)
          ]
  ]

  -- Whatever the school answers, and whatever other transactions do, a ticket whose operations parse
  -- and whose job is claimed is run with calls of the adapter within a bound: with three fetches of
  -- the form at most, then three posts of one payload to one URL at most, then one fetch of the
  -- results at most, which needs a post before it. The run returns, and afterwards the job is not
  -- active; or it is stopped, while the job runs, by what the engine does not catch: the URL join's
  -- ValueError, or an exception of a call other than those that it handles.
  pub execute_ticket_claimed :
      (ops : List CanonicalOp) (job : WriteJob) (db : Db)
      → parse_canonical_segments ticket.canonical_ops ≡ some ops
      → (claim_job ticket.job_id w.cutoff (w.meanwhile at_claim db)).0 ≡ some job
      → Ran (execute_ticket w ticket db)
  unfolding execute_ticket
  execute_ticket_claimed ops job db e f =
      rw (e, f, execute_ticket) (run_claimed-Ran ops (claim db).1)

  pub refuse-IsStarted : (db : Db) → IsStarted ticket (refuse w ticket db)
  unfolding refuse
  refuse-IsStarted db =
      let db' = w.meanwhile at_refused db in
      elim (Bool-cases (is_waiting (read_job_status ticket.job_id db'))) [
        | inl e ↦
            rw (e, refuse) (finish-IsStarted ticket cancelled (w.meanwhile at_cancel db') refl)
        | inr e ↦ rw (e, refuse) (λ s h. not_waiting _ s e h)
      ]

  -- A run that returns without a contact, with the job started or ended.
  abbrev pub IsSilent : Db → Result Crash (List Contact × Db) → Type 0
  IsSilent db result =
      (db' : Db) × (result ≡ ok ([], db'))
      × IsStarted ticket db'
      × (Ended db'
          ⊎ ((parse_canonical_segments ticket.canonical_ops ≢ none)
              × ((claim_job ticket.job_id w.cutoff (w.meanwhile at_claim db)).0 ≡ none)))

  failed-IsSilent :
      (m : Moment) (db before : Db) (result : Result Crash (List Contact × Db))
      → result ≡ ok ([], finish_failed w ticket m before)
      → IsSilent db result
  failed-IsSilent m db before result e = (
    finish_failed w ticket m before,
    e,
    finish-IsStarted ticket failed (w.meanwhile m before) refl,
    inl (failed-Ended m before),
  )

  -- Without parsable operations, without the claim of the job, or without the audit table, the run
  -- returns without any call of the adapter. Afterwards the job is not queued; and it is not active,
  -- unless the operations parse and the job was not claimed.
  pub execute_ticket-IsSilent :
      (db : Db)
      → (parse_canonical_segments ticket.canonical_ops ≡ none)
        ⊎ (((claim_job ticket.job_id w.cutoff (w.meanwhile at_claim db)).0 ≡ none)
            ⊎ (w.sink_up ≡ false))
      → IsSilent db (execute_ticket w ticket db)
  unfolding execute_ticket run_claimed
  execute_ticket-IsSilent db (inl e) =
      failed-IsSilent at_corrupt db db _ (rw (e, execute_ticket) refl)
  execute_ticket-IsSilent db (inr h) =
      elim (Option-cases (parse_canonical_segments ticket.canonical_ops)) [
        | inl e ↦ failed-IsSilent at_corrupt db db _ (rw (e, execute_ticket) refl)
        | inr (ops, e) ↦ elim (Option-cases (claim db).0) [
          | inl f ↦ (
            refuse w ticket (claim db).1,
            rw (e, f, execute_ticket) refl,
            refuse-IsStarted (claim db).1,
            inr (λ k. cc, f),
          )
          | inr (job, f) ↦ elim h [
            | inl g ↦ cc
            | inr g ↦
                failed-IsSilent at_sink_down db (claim db).1 _
                  (rw (e, f, execute_ticket, run_claimed, g) refl)
          ]
        ]
      ]
