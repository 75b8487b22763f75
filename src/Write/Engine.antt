-- ===== src/Write/Engine.antt =====
-- backend/app/write/engine.py: one ticket of the queue, from the claim to the terminal write. What
-- lies outside is a parameter: the school, the session store, the hashes, the URL join, the HTML
-- parser, and what other transactions do to the database meanwhile.
pub mod Bounds
pub mod Contacts
pub mod Outcomes
pub mod Ticket
use nsysu_crs.Common.{
  ℕ, zero, suc, ◌+◌, Text, codes, text_eq, Bool, true, false, not, ◌&&◌, Option, none, some, List,
  [], ◌∷◌, ◌++◌, map, if◌then◌else◌, String, Result, ok, raise,
}
use nsysu_crs.Selections.{SelectionItem}
use nsysu_crs.Write.Canonical.{CanonicalOp, parse_canonical_segments, payload_hash}
use nsysu_crs.Write.Form.{
  Html, parse_form_hidden_inputs, parse_form_action, parse_send_value, parse_submit_action,
  parse_submit_step,
}
use nsysu_crs.Write.Jobs.{
  JobStatus, queued, running, done, failed, cancelled, session_superseded, WriteJob, Db, claim_job,
  read_job_status, finish_job, insert_pending_audits, apply_audit_outcomes, OutcomeUpdate, Outcome,
  rejected, transport_failed, parse_failed, stage_expired, unknown_reconciled, superseded,
}
use nsysu_crs.Write.Payload.{
  Dict, PayloadError, dict_set, set_default, send_name, build_payload_ssprs, build_payload_stage5,
}
use nsysu_crs.Write.Reconcile.{Fetched, maybe_reconcile}
use nsysu_crs.Write.Response.{Tables, ParsedOp, is_session_bounce, parse_submit_response}
use nsysu_crs.Write.Transport.{Called, transport_call}

pub record QueueTicket : Type 0 where
  pub job_id : ℕ
  pub session_ref : Text
  pub student_no : Text
  pub canonical_ops : Text
  pub variant : Text
  pub form_url : Text

-- A call of the school's adapter, which repeats a request that fails up to four times itself.
pub data Contact : Type 0 where
  form_fetch : Contact
  form_post : Text → Dict → Contact
  result_fetch : Contact

-- The places where the engine opens a transaction, which others can come before.
pub data Moment : Type 0 where
  at_corrupt at_claim at_refused at_cancel at_audit at_sink_down at_fetch at_post at_end : Moment

-- What a call gives but for SelcrsUnavailable: a page, or another exception.
pub data Answer : Type 0 where
  answered : Text → Answer
  broken : Answer

-- What surrounds the engine. `none` is a dead session where a jar is loaded, SelcrsUnavailable
-- where the school is called (it is given the number of the attempt), and the ValueError of the URL
-- join.
pub record Worker (Jar : Type 0) : Type 0 where
  pub cutoff : ℕ
  pub sink_up : Bool
  pub load_selcrs : Text → Option Jar
  pub load_selcrs_again : Text → Option Jar
  pub get_write_form : Jar → Text → ℕ → Option Answer
  pub post_write : Jar → Text → Dict → Text → ℕ → Option Answer
  pub get_slt_result : Jar → Fetched
  pub meanwhile : Moment → Db → Db
  pub html : Html
  pub tables : Tables
  pub url_join : Text → Text → Option Text
  pub sha256_hex : Text → Text
  pub audit_stuid_hash : Text → Text

-- What an exception leaves: the contacts before it, and the database as it is then.
abbrev pub Crash : Type 0
Crash = List Contact × Db

-- What the engine has when it comes to `_finalize`.
pub record Settled : Type 0 where
  pub contacts : List Contact
  pub updates : List OutcomeUpdate
  pub status : JobStatus
  pub db : Db

-- As many contacts as a call took attempts.
abbrev pub times : ℕ → Contact → List Contact
times zero c = []
times (suc n) c = c ∷ times n c

unfoldable pub terminal_updates : List ℕ → Outcome → List OutcomeUpdate
terminal_updates audit_ids outcome =
    map (λ id. record { audit = id; outcome = outcome; school_msg = none }) audit_ids

abbrev pub is_running : Option JobStatus → Bool
is_running (some running) = true
is_running _ = false

abbrev pub is_waiting : Option JobStatus → Bool
is_waiting (some queued) = true
is_waiting _ = false

-- _BUILDERS[variant](ops, hidden); `none` is the KeyError or the ValueError.
unfoldable pub build_payload : Text → List CanonicalOp → Dict → Option Dict
build_payload variant ops hidden =
    let built : Option (Result PayloadError Dict) =
      if text_eq variant (codes "ssform")
      then some (build_payload_ssprs ops hidden)
      else if text_eq variant (codes "stage5")
      then some (build_payload_stage5 ops hidden)
      else none in
    elim built [ none ↦ none | some (raise e) ↦ none | some (ok payload) ↦ some payload ]

-- parsed[code]
unfoldable pub find_verdict : Text → List (Text × ParsedOp) → Option ParsedOp
find_verdict code [] = none
find_verdict code ((c, verdict) ∷ parsed) =
    if text_eq c code then some verdict else find_verdict code parsed

abbrev is_rejected : Outcome → Bool
is_rejected rejected = true
is_rejected _ = false

abbrev pub update_of : Bool → ℕ → ParsedOp → OutcomeUpdate
update_of post_retried id v = record {
  audit = id;
  outcome =
      if is_rejected v.outcome && (post_retried && v.duplicate_like)
      then unknown_reconciled
      else v.outcome;
  school_msg = v.school_msg;
}

-- The loop over `zip(audit_ids, ops, strict=True)`; `none` is its ValueError or a KeyError.
unfoldable pub verdict_updates :
    Bool → List ℕ → List CanonicalOp → List (Text × ParsedOp) → Option (List OutcomeUpdate)
verdict_updates post_retried [] [] parsed = some []
verdict_updates post_retried [] (op ∷ ops) parsed = none
verdict_updates post_retried (id ∷ ids) [] parsed = none
verdict_updates post_retried (id ∷ ids) (op ∷ ops) parsed =
    let more = verdict_updates post_retried ids ops parsed in
    elim (find_verdict op.code parsed) [
      | none ↦ none
      | some v ↦ elim more [ none ↦ none | some us ↦ some (update_of post_retried id v ∷ us) ]
    ]

-- The form's action and the payload for it, with the replayed send value and the pinned step.
unfoldable pub form_payload : Html → Text → List CanonicalOp → Text → Option (Text × Dict)
form_payload html variant ops page =
    let hidden0 = parse_form_hidden_inputs html page in
    let hidden : Dict = elim (parse_send_value html page) [
      | none ↦ hidden0
      | some value ↦ set_default send_name value hidden0
    ] in
    let action : Option Text = elim (parse_submit_action page) [
      | some a ↦ some a
      | none ↦ parse_form_action html page
    ] in
    elim action [
      | none ↦ none
      | some a ↦ elim (build_payload variant ops hidden) [
        | none ↦ none
        | some payload ↦ some (
          a,
          elim (parse_submit_step page) [
            | none ↦ payload
            | some step ↦ dict_set (codes "step") step payload
          ],
        )
      ]
    ]

module _ {Jar : Type 0} (w : Worker Jar) (ticket : QueueTicket) where
  abbrev status_at : Moment → Db → Option JobStatus × Db
  status_at m db = let db' = w.meanwhile m db in (read_job_status ticket.job_id db', db')

  abbrev settle : List Contact → List ℕ → Outcome → Db → Settled
  settle contacts ids outcome db = record {
    contacts = contacts;
    updates = terminal_updates ids outcome;
    status = failed;
    db = db;
  }

  -- The verdicts, and after a retry the reconciliation.
  unfoldable pub conclude :
      Bool → List Contact → List CanonicalOp → List OutcomeUpdate → Db → Result Crash Settled
  conclude post_retried contacts ops updates db =
      let plain : Settled = record {
        contacts = contacts;
        updates = updates;
        status = done;
        db = db;
      } in
      let (found, contacted) =
        maybe_reconcile (w.load_selcrs_again ticket.session_ref) w.get_slt_result ops updates in
      let contacts' = if contacted then contacts ++ (result_fetch ∷ []) else contacts in
      if post_retried
      then elim found [
        | none ↦ raise (contacts', db)
        | some us ↦ ok (record plain { updates = us; contacts = contacts' })
      ]
      else ok plain

  unfoldable pub read_response :
      Called Answer → List Contact → List CanonicalOp → List ℕ → Db → Result Crash Settled
  read_response posted contacts ops ids db = elim posted.result [
    | none ↦ ok (settle contacts ids transport_failed db)
    | some broken ↦ raise (contacts, db)
    | some (answered resp_html) ↦
        elim (parse_submit_response w.tables resp_html (map (λ (op : CanonicalOp). op.code) ops)) [
          | none ↦ ok (settle contacts ids stage_expired db)
          | some parsed ↦ elim (verdict_updates posted.retried ids ops parsed) [
            | none ↦ raise (contacts, db)
            | some updates ↦ conclude posted.retried contacts ops updates db
          ]
        ]
  ]

  unfoldable pub post_form :
      Jar → Text → Dict → List Contact → List CanonicalOp → List ℕ → Db → Result Crash Settled
  post_form jar action payload contacts ops ids db = elim (w.url_join ticket.form_url action) [
    | none ↦ raise (contacts, db)
    | some submit_url ↦
        let posted = transport_call (w.post_write jar submit_url payload ticket.form_url) in
        read_response posted (contacts ++ times posted.attempts (form_post submit_url payload)) ops
          ids db
  ]

  unfoldable pub read_form :
      Jar → Called Answer → List CanonicalOp → List ℕ → Db → Result Crash Settled
  read_form jar fetched ops ids db =
      let contacts = times fetched.attempts form_fetch in
      elim fetched.result [
        | none ↦ ok (settle contacts ids transport_failed db)
        | some broken ↦ raise (contacts, db)
        | some (answered form_html) ↦
            if is_session_bounce form_html
            then ok (settle contacts ids stage_expired db)
            else elim (form_payload w.html ticket.variant ops form_html) [
              | none ↦ ok (settle contacts ids parse_failed db)
              | some (action, payload) ↦
                  let (status, db') = status_at at_post db in
                  if is_running status
                  then post_form jar action payload contacts ops ids db'
                  else ok (settle contacts ids superseded db')
            ]
      ]

  -- From the loaded session to what `_finalize` is given.
  unfoldable pub execute_claimed : List CanonicalOp → List ℕ → Db → Result Crash Settled
  execute_claimed ops ids db = elim (w.load_selcrs ticket.session_ref) [
    | none ↦ ok (settle [] ids stage_expired db)
    | some jar ↦
        let (status, db') = status_at at_fetch db in
        if is_running status
        then read_form jar (transport_call (w.get_write_form jar ticket.form_url)) ops ids db'
        else ok (settle [] ids superseded db')
  ]

  unfoldable pub finalize : List OutcomeUpdate → JobStatus → Db → Db
  finalize updates status db = (finish_job ticket.job_id status (apply_audit_outcomes updates db)).1

  abbrev pub finish_failed : Moment → Db → Db
  finish_failed m db = (finish_job ticket.job_id failed (w.meanwhile m db)).1

  -- The audit rows go before every contact.
  unfoldable pub run_claimed : List CanonicalOp → Db → Result Crash (List Contact × Db)
  run_claimed ops db =
      let phash = payload_hash w.sha256_hex ticket.student_no ops in
      let stuid = w.audit_stuid_hash ticket.student_no in
      let (ids, db') =
        insert_pending_audits ticket.job_id ops phash stuid (w.meanwhile at_audit db) in
      if w.sink_up
      then elim (execute_claimed ops ids db') [
        | raise crash ↦ raise crash
        | ok s ↦ ok (s.contacts, finalize s.updates s.status (w.meanwhile at_end s.db))
      ]
      else ok ([], finish_failed at_sink_down db)

  -- A job that is not claimed is cancelled if it is still queued.
  unfoldable pub refuse : Db → Db
  refuse db =
      let (status, db') = status_at at_refused db in
      if is_waiting status
      then (finish_job ticket.job_id cancelled (w.meanwhile at_cancel db')).1
      else db'

  unfoldable pub execute_ticket : Db → Result Crash (List Contact × Db)
  execute_ticket db = elim (parse_canonical_segments ticket.canonical_ops) [
    | none ↦ ok ([], finish_failed at_corrupt db)
    | some ops ↦
        let (claimed, db') = claim_job ticket.job_id w.cutoff (w.meanwhile at_claim db) in
        elim claimed [ none ↦ ok ([], refuse db') | some job ↦ run_claimed ops db' ]
  ]
