-- ===== src/Write/Queue/Steps.antt =====
-- The engine and the queue loop, as sequences of the statements of Write/Jobs/Steps.
use nsysu_crs.Common.{
  ℕ, ◌≡◌, refl, Bool, true, false, List, [], map, Text, Bool-cases, Option-cases, inl, inr, ◌⊎◌,
  Result, ok, raise,
}
use nsysu_crs.Write.Canonical.{CanonicalOp, parse_canonical_segments, payload_hash}
use nsysu_crs.Write.Jobs.{
  JobStatus, cancelled, failed, is_active, Db, claim_job, read_job_status, finish_job,
  insert_pending_audits, apply_audit_outcomes, OutcomeUpdate,
}
use nsysu_crs.Write.Jobs.Audits.{length-insert_pending_audits}
use nsysu_crs.Write.Jobs.Steps.{
  claimed, finished, audited, written_back, Reach, untouched, followed,
}
use nsysu_crs.Write.Payload.{Dict}
use nsysu_crs.Write.Reconcile.{maybe_reconcile}
use nsysu_crs.Write.Response.{is_session_bounce, parse_submit_response}
use nsysu_crs.Write.Transport.{Called}
use nsysu_crs.Write.Engine.{
  Answer, answered, broken, Crash, QueueTicket, Contact, Worker, Moment, at_audit, at_cancel,
  at_claim, at_end, at_fetch, at_post, at_refused, Settled, conclude, read_response, post_form,
  read_form, execute_claimed, finalize, run_claimed, refuse, finish_failed, at_corrupt,
  at_sink_down, execute_ticket, is_running, is_waiting, form_payload, verdict_updates,
}
use nsysu_crs.Write.Engine.Contacts.{Settles, execute_claimed-Settles}
use nsysu_crs.Write.Engine.Ticket.{IsStarted, finish-IsStarted, running-IsStarted, refuse-IsStarted}

pub Reach-trans : {db db' db'' : Db} → Reach db db' → Reach db' db'' → Reach db db''
Reach-trans r untouched = r
Reach-trans r (followed q st) = followed (Reach-trans r q) st

-- What a run leaves, stopped or not.
abbrev Keeps : Db → Result Crash Settled → Type 0
Keeps db (raise crash) = Reach db crash.1
Keeps db (ok s) = Reach db s.db

Keeps-at :
    (db : Db) (result result' : Result Crash Settled)
    → result ≡ result'
    → Keeps db result
    → Keeps db result'
Keeps-at db result result' h k = rw (← h) k

-- Other transactions are made of statements too.
abbrev pub AreSteps : {Jar : Type 0} → Worker Jar → Type 0
AreSteps w = (m : Moment) (db : Db) → Reach db (w.meanwhile m db)

-- A run over statements, with the job no longer waiting; stopped or not.
abbrev pub Executed : QueueTicket → Db → Result Crash (List Contact × Db) → Type 0
Executed ticket db result =
    (contacts : List Contact) × (db' : Db) × ((result ≡ ok (contacts, db'))
      ⊎ (result ≡ raise (contacts, db')))
    × Reach db db'
    × IsStarted ticket db'

module _ {Jar : Type 0} (w : Worker Jar) (ticket : QueueTicket) where
  conclude-Keeps :
      (retried : Bool) (contacts : List Contact) (ops : List CanonicalOp) (us : List OutcomeUpdate)
      (db : Db)
      → Keeps db (conclude w ticket retried contacts ops us db)
  unfolding conclude
  conclude-Keeps false contacts ops us db = untouched
  conclude-Keeps true contacts ops us db =
      elim (Option-cases
        (maybe_reconcile (w.load_selcrs_again ticket.session_ref) w.get_slt_result ops us).0) [
          | inl e ↦ rw (e, conclude) untouched
          | inr (found, e) ↦ rw (e, conclude) untouched
        ]

  read_response-Keeps :
      (posted : Called Answer) (contacts : List Contact) (ops : List CanonicalOp) (ids : List ℕ)
      (db : Db)
      → Keeps db (read_response w ticket posted contacts ops ids db)
  unfolding read_response
  read_response-Keeps posted contacts ops ids db = elim (Option-cases posted.result) [
    | inl e ↦ rw (e, read_response) untouched
    | inr (broken, e) ↦ rw (e, read_response) untouched
    | inr (answered page, e) ↦
        elim (Option-cases
          (parse_submit_response w.tables page (map (λ (op : CanonicalOp). op.code) ops))) [
            | inl f ↦ rw (e, read_response, f) untouched
            | inr (parsed, f) ↦
                elim (Option-cases (verdict_updates posted.retried ids ops parsed)) [
                  | inl g ↦ rw (e, read_response, f, g) untouched
                  | inr (us, g) ↦
                      rw (e, read_response, f, g) (conclude-Keeps posted.retried contacts ops us db)
                ]
          ]
  ]

  post_form-Keeps :
      (jar : Jar) (action : Text) (payload : Dict) (contacts : List Contact)
      (ops : List CanonicalOp) (ids : List ℕ) (db : Db)
      → Keeps db (post_form w ticket jar action payload contacts ops ids db)
  unfolding post_form
  post_form-Keeps jar action payload contacts ops ids db =
      elim (Option-cases (w.url_join ticket.form_url action)) [
        | inl e ↦ rw (e, post_form) untouched
        | inr (url, e) ↦ rw (e, post_form) (read_response-Keeps _ _ ops ids db)
      ]

  -- What begins after other transactions keeps what they kept.
  Keeps-after :
      (m : Moment) (db : Db) (result : Result Crash Settled)
      → AreSteps w
      → Keeps (w.meanwhile m db) result
      → Keeps db result
  Keeps-after m db (raise crash) st k = Reach-trans (st m db) k
  Keeps-after m db (ok s) st k = Reach-trans (st m db) k

  read_form-Keeps :
      (jar : Jar) (fetched : Called Answer) (ops : List CanonicalOp) (ids : List ℕ) (db : Db)
      → AreSteps w
      → Keeps db (read_form w ticket jar fetched ops ids db)
  unfolding read_form
  read_form-Keeps jar fetched ops ids db st = elim (Option-cases fetched.result) [
    | inl e ↦ rw (e, read_form) untouched
    | inr (broken, e) ↦ rw (e, read_form) untouched
    | inr (answered page, e) ↦ elim (Bool-cases (is_session_bounce page)) [
      | inl f ↦ rw (e, read_form, f) untouched
      | inr f ↦ elim (Option-cases (form_payload w.html ticket.variant ops page)) [
        | inl g ↦ rw (e, read_form, f, g) untouched
        | inr ((action, payload), g) ↦
            elim (Bool-cases
              (is_running (read_job_status ticket.job_id (w.meanwhile at_post db)))) [
                | inl h ↦
                    rw (e, read_form, f, g, h)
                      (Keeps-after at_post db _ st (post_form-Keeps jar action payload _ ops ids _))
                | inr h ↦ rw (e, read_form, f, g, h) (st at_post db)
              ]
      ]
    ]
  ]

  execute_claimed-Keeps :
      (ops : List CanonicalOp) (ids : List ℕ) (db : Db)
      → AreSteps w
      → Keeps db (execute_claimed w ticket ops ids db)
  unfolding execute_claimed
  execute_claimed-Keeps ops ids db st = elim (Option-cases (w.load_selcrs ticket.session_ref)) [
    | inl e ↦ rw (e, execute_claimed) untouched
    | inr (jar, e) ↦
        elim (Bool-cases (is_running (read_job_status ticket.job_id (w.meanwhile at_fetch db)))) [
          | inl h ↦
              rw (e, execute_claimed, h)
                (Keeps-after at_fetch db _ st (read_form-Keeps jar _ ops ids _ st))
          | inr h ↦ rw (e, execute_claimed, h) (st at_fetch db)
        ]
  ]

  finish-Reach :
      (m : Moment) (status : JobStatus) (db : Db)
      → AreSteps w
      → is_active status ≡ false
      → Reach db (finish_job ticket.job_id status (w.meanwhile m db)).1
  finish-Reach m status db st f = followed (st m db) (finished ticket.job_id status f refl)

  finalize-Reach :
      (s : Settled) (db : Db)
      → AreSteps w
      → is_active s.status ≡ false
      → Reach db s.db
      → Reach db (finalize w ticket s.updates s.status (w.meanwhile at_end s.db))
  unfolding finalize
  finalize-Reach s db st f r =
      followed (followed (Reach-trans r (st at_end s.db)) (written_back s.updates refl))
        (finished ticket.job_id s.status f refl)

  finalize-IsStarted :
      (s : Settled) (db : Db)
      → is_active s.status ≡ false
      → IsStarted ticket (finalize w ticket s.updates s.status db)
  unfolding finalize
  finalize-IsStarted s db f = finish-IsStarted ticket s.status (apply_audit_outcomes s.updates db) f

  run_claimed-Executed :
      (ops : List CanonicalOp) (db : Db)
      → AreSteps w
      → Executed ticket db (run_claimed w ticket ops db)
  unfolding run_claimed Settles
  run_claimed-Executed ops db st = elim (Bool-cases w.sink_up) [
    | inr e ↦ (
      [],
      finish_failed w ticket at_sink_down db,
      inl (rw e refl),
      finish-Reach at_sink_down failed db st refl,
      finish-IsStarted ticket failed (w.meanwhile at_sink_down db) refl,
    )
    | inl e ↦
        let phash = payload_hash w.sha256_hex ticket.student_no ops in
        let stuid = w.audit_stuid_hash ticket.student_no in
        let before = w.meanwhile at_audit db in
        let inserted = insert_pending_audits ticket.job_id ops phash stuid before in
        let result = execute_claimed w ticket ops inserted.0 inserted.1 in
        let begun : Reach db inserted.1 =
          followed (st at_audit db) (audited ticket.job_id ops phash stuid refl) in
        let kept = execute_claimed-Keeps ops inserted.0 inserted.1 st in
        elim (execute_claimed-Settles w ticket ops inserted.0 inserted.1
          (length-insert_pending_audits ticket.job_id ops phash stuid before)) [
            | inl (s, f, settled) ↦ (
              s.contacts,
              finalize w ticket s.updates s.status (w.meanwhile at_end s.db),
              inl (rw (f, e) refl),
              finalize-Reach s db st settled.ended
                  (Reach-trans begun (Keeps-at inserted.1 result (ok s) f kept)),
              finalize-IsStarted s (w.meanwhile at_end s.db) settled.ended,
            )
            | inr (crash, f, stopped) ↦ (
              crash.0,
              crash.1,
              inr (rw (f, e) refl),
              Reach-trans begun (Keeps-at inserted.1 result (raise crash) f kept),
              running-IsStarted ticket crash.1 stopped.runs,
            )
          ]
  ]

  refuse-Reach : (db : Db) → AreSteps w → Reach db (refuse w ticket db)
  unfolding refuse
  refuse-Reach db st =
      let db' = w.meanwhile at_refused db in
      elim (Bool-cases (is_waiting (read_job_status ticket.job_id db'))) [
        | inl e ↦
            rw (e, refuse)
              (Reach-trans (st at_refused db) (finish-Reach at_cancel cancelled db' st refl))
        | inr e ↦ rw (e, refuse) (st at_refused db)
      ]

  -- A ticket is executed, over a sequence of statements, and its job does not wait then,
  -- whatever the ticket holds and whatever the school answers; other transactions are statements.
  pub execute_ticket-Executed :
      (db : Db) → AreSteps w → Executed ticket db (execute_ticket w ticket db)
  unfolding execute_ticket
  execute_ticket-Executed db st =
      elim (Option-cases (parse_canonical_segments ticket.canonical_ops)) [
        | inl e ↦ (
          [],
          finish_failed w ticket at_corrupt db,
          inl (rw (e, execute_ticket) refl),
          finish-Reach at_corrupt failed db st refl,
          finish-IsStarted ticket failed (w.meanwhile at_corrupt db) refl,
        )
        | inr (ops, e) ↦
            let before = w.meanwhile at_claim db in
            let claim = claim_job ticket.job_id w.cutoff before in
            let begun : Reach db claim.1 =
              followed (st at_claim db) (claimed ticket.job_id w.cutoff refl) in
            elim (Option-cases claim.0) [
              | inl f ↦ (
                [],
                refuse w ticket claim.1,
                inl (rw (e, f, execute_ticket) refl),
                Reach-trans begun (refuse-Reach claim.1 st),
                refuse-IsStarted w ticket claim.1,
              )
              | inr (job, f) ↦
                  let (contacts, db', g, r, s) = run_claimed-Executed ops claim.1 st in
                  (contacts, db', rw (e, f, execute_ticket) g, Reach-trans begun r, s)
            ]
      ]
