-- ===== src/Write/Engine/Contacts.antt =====
-- A claimed job of backend/app/write/engine.py, phase by phase, to what its terminal transaction writes.
use nsysu_crs.Common.{
  ℕ, ◌≤◌, Text, ◌≡◌, refl, ◌⊎◌, ◌∙◌, none, inl, inr, Bool, true, false, Option, some, Result, ok,
  raise, List, [], ◌∷◌, ◌++◌, map, length, arith, Bool-cases, Option-cases, if◌then◌else◌,
}
use nsysu_crs.Write.Canonical.{CanonicalOp}
use nsysu_crs.Write.Jobs.{
  read_job_status, done, is_active, Db, OutcomeUpdate, Outcome, transport_failed, parse_failed,
  stage_expired, superseded,
}
use nsysu_crs.Write.Payload.{Dict}
use nsysu_crs.Write.Reconcile.{fetch_broken, maybe_reconcile}
use nsysu_crs.Write.Response.{is_session_bounce, parse_submit_response, code_verdict}
use nsysu_crs.Write.Transport.{Called, transport_call, transport_call_lem}
use nsysu_crs.Write.Engine.{
  Answer, answered, broken, Crash, QueueTicket, Contact, form_fetch, form_post, result_fetch,
  at_fetch, at_post, Worker, Settled, times, settle, form_payload, is_running, conclude,
  read_response, post_form, read_form, execute_claimed,
}
use nsysu_crs.Write.Engine.Bounds.{IsBounded, only_fetches, then_posts, maybe_result}
use nsysu_crs.Write.Engine.Outcomes.{
  is_pending, AreWritten, terminal_updates_written, verdict_updates_written, batch-IsAnswered,
  maybe_reconcile_written,
}

-- What `_finalize` is given: a final status, a final outcome for each audit row, and the contacts.
pub record IsSettled (ids : List ℕ) (s : Settled) : Type 0 where
  pub ended : is_active s.status ≡ false
  pub written : AreWritten ids s.updates
  pub bounded : IsBounded s.contacts

three_attempts :
    {A : Type 0} (answer : ℕ → Option A)
    → (1 ≤ (transport_call answer).attempts) × ((transport_call answer).attempts ≤ 3)
three_attempts answer = elim (transport_call_lem answer) [
  | inl (k, a, h, f, e) ↦ rw e (omega arith, omega arith)
  | inr (f, e) ↦ rw e (omega arith, omega arith)
]

result_answered :
    {A : Type 0} (answer : ℕ → Option A) (a : A)
    → (transport_call answer).result ≡ some a
    → (k : ℕ) × (answer k ≡ some a)
result_answered answer a h = elim (transport_call_lem answer) [
  | inl (k, b, n, f, e) ↦ (k, f.0 ∙ (rw e at h))
  | inr (f, e) ↦ cc (rw e at h)
]

module _ {Jar : Type 0} (w : Worker Jar) (ticket : QueueTicket) where
  -- What the engine does not catch: the ValueError of the URL join, and an exception of the adapter
  -- other than those of its own.
  pub data Uncaught : Type 0 where
    not_joined : (action : Text) → w.url_join ticket.form_url action ≡ none → Uncaught
    form_broken :
        (jar : Jar) (k : ℕ) → w.get_write_form jar ticket.form_url k ≡ some broken → Uncaught
    post_broken :
        (jar : Jar) (url : Text) (payload : Dict) (k : ℕ)
        → w.post_write jar url payload ticket.form_url k ≡ some broken
        → Uncaught
    list_broken : (jar : Jar) → w.get_slt_result jar ≡ fetch_broken → Uncaught

  abbrev pub runs_in : Db → Bool
  runs_in db = is_running (read_job_status ticket.job_id db)

  -- An exception that the engine does not catch, within the bound, while the job runs.
  pub record IsStopped (crash : Crash) : Type 0 where
    pub uncaught : Uncaught
    pub bounded : IsBounded crash.0
    pub runs : runs_in crash.1 ≡ true

  unfoldable pub Settles : List ℕ → Result Crash Settled → Type 0
  Settles ids result =
      ((s : Settled) × (result ≡ ok s) × IsSettled ids s)
      ⊎ ((crash : Crash) × (result ≡ raise crash) × IsStopped crash)

  settle-Settles :
      (contacts : List Contact) (ids : List ℕ) (outcome : Outcome) (db : Db)
      → is_pending outcome ≡ false
      → IsBounded contacts
      → Settles ids (ok (settle w ticket contacts ids outcome db))
  unfolding Settles
  settle-Settles contacts ids outcome db q b = inl (
    settle w ticket contacts ids outcome db,
    refl,
    record { ended = refl; written = terminal_updates_written ids outcome q; bounded = b },
  )

  crash-Settles :
      (contacts : List Contact) (ids : List ℕ) (db : Db)
      → Uncaught
      → IsBounded contacts
      → runs_in db ≡ true
      → Settles ids (raise (contacts, db))
  unfolding Settles
  crash-Settles contacts ids db u b r =
      inr ((contacts, db), refl, record { uncaught = u; bounded = b; runs = r })

  conclude-Settles :
      (n p : ℕ) (url : Text) (payload : Dict) (retried : Bool) (ops : List CanonicalOp)
      (ids : List ℕ) (us : List OutcomeUpdate) (db : Db)
      → n ≤ 3
      → p ≤ 3
      → 1 ≤ p
      → runs_in db ≡ true
      → length us ≡ length ops
      → AreWritten ids us
      → Settles ids (
          conclude w ticket retried
            (times n form_fetch ++ times p (form_post url payload))
            ops
            us
            db)
  unfolding conclude Settles
  conclude-Settles n p url payload false ops ids us db h k l i e a =
      inl (_, refl, record { ended = refl; written = a; bounded = then_posts n p url payload h k })
  conclude-Settles n p url payload true ops ids us db h k l i e a =
      let reconciled =
        maybe_reconcile (w.load_selcrs_again ticket.session_ref) w.get_slt_result ops us in
      let bounded = maybe_result n p url payload h k l reconciled.1 in
      elim (maybe_reconcile_written (w.load_selcrs_again ticket.session_ref) w.get_slt_result ids
        ops us e a) [
          | inl (vs, f, b) ↦ inl (
            record {
              contacts =
                  if reconciled.1
                  then (times n form_fetch ++ times p (form_post url payload))
                    ++ (result_fetch ∷ [])
                  else times n form_fetch ++ times p (form_post url payload);
              updates = vs;
              status = done;
              db = db;
            },
            rw f refl,
            record { ended = refl; written = b; bounded = bounded },
          )
          | inr (jar, g, f) ↦ inr (
            (
              if reconciled.1
                  then (times n form_fetch ++ times p (form_post url payload))
                    ++ (result_fetch ∷ [])
                  else times n form_fetch ++ times p (form_post url payload),
              db,
            ),
            rw f refl,
            record { uncaught = list_broken jar g; bounded = bounded; runs = i },
          )
        ]

  -- The reply that is parsed has one verdict for each operation.
  verdicts_settle :
      (n p : ℕ) (url : Text) (payload : Dict) (posted : Called Answer) (html : Text)
      (ops : List CanonicalOp) (ids : List ℕ) (db : Db)
      → n ≤ 3
      → p ≤ 3
      → 1 ≤ p
      → runs_in db ≡ true
      → length ids ≡ length ops
      → posted.result ≡ some (answered html)
      → is_session_bounce html ≡ false
      → Settles ids (
          read_response w ticket posted
            (times n form_fetch ++ times p (form_post url payload))
            ops
            ids
            db)
  unfolding read_response parse_submit_response
  verdicts_settle n p url payload posted html ops ids db h k l i e f g =
      let parsed =
        map (λ code. (code, code_verdict w.tables html code))
          (map (λ (op : CanonicalOp). op.code) ops) in
      let (us, q, a, m) =
        verdict_updates_written posted.retried ids ops parsed e
          (batch-IsAnswered w.tables html ops) in
      rw (f, read_response, parse_submit_response, g, q)
        (conclude-Settles n p url payload posted.retried ops ids us db h k l i m a)

  read_response-Settles :
      (n p : ℕ) (url : Text) (payload : Dict) (posted : Called Answer) (ops : List CanonicalOp)
      (ids : List ℕ) (db : Db)
      → n ≤ 3
      → p ≤ 3
      → 1 ≤ p
      → runs_in db ≡ true
      → length ids ≡ length ops
      → (posted.result ≡ some broken → Uncaught)
      → Settles ids (
          read_response w ticket posted
            (times n form_fetch ++ times p (form_post url payload))
            ops
            ids
            db)
  unfolding read_response parse_submit_response
  read_response-Settles n p url payload posted ops ids db h k l i e u =
      let bounded = then_posts n p url payload h k in
      elim (Option-cases posted.result) [
        | inl f ↦ rw (f, read_response) (settle-Settles _ ids transport_failed db refl bounded)
        | inr (broken, f) ↦ rw (f, read_response) (crash-Settles _ ids db (u f) bounded i)
        | inr (answered html, f) ↦ elim (Bool-cases (is_session_bounce html)) [
          | inl g ↦
              rw (f, read_response, parse_submit_response, g)
                (settle-Settles _ ids stage_expired db refl bounded)
          | inr g ↦ verdicts_settle n p url payload posted html ops ids db h k l i e f g
        ]
      ]

  post_form-Settles :
      (n : ℕ) (jar : Jar) (action : Text) (payload : Dict) (ops : List CanonicalOp) (ids : List ℕ)
      (db : Db)
      → n ≤ 3
      → runs_in db ≡ true
      → length ids ≡ length ops
      → Settles ids (post_form w ticket jar action payload (times n form_fetch) ops ids db)
  unfolding post_form
  post_form-Settles n jar action payload ops ids db h i e =
      elim (Option-cases (w.url_join ticket.form_url action)) [
        | inl f ↦
            rw (f, post_form)
              (crash-Settles (times n form_fetch) ids db (not_joined action f) (only_fetches n h) i)
        | inr (url, f) ↦
            let answer = w.post_write jar url payload ticket.form_url in
            let posted = transport_call answer in
            let (l, k) = three_attempts answer in
            rw (f, post_form)
              (read_response-Settles n posted.attempts url payload posted ops ids db h k l i e (λ r.
                let (j, b) = result_answered answer broken r in post_broken jar url payload j b))
      ]

  page-Settles :
      (jar : Jar) (fetched : Called Answer) (html : Text) (ops : List CanonicalOp) (ids : List ℕ)
      (db : Db)
      → fetched.attempts ≤ 3
      → length ids ≡ length ops
      → fetched.result ≡ some (answered html)
      → is_session_bounce html ≡ false
      → Settles ids (read_form w ticket jar fetched ops ids db)
  unfolding read_form
  page-Settles jar fetched html ops ids db h e f g =
      let bounded = only_fetches fetched.attempts h in
      elim (Option-cases (form_payload w.html ticket.variant ops html)) [
        | inl k ↦ rw (f, read_form, g, k) (settle-Settles _ ids parse_failed db refl bounded)
        | inr (built, k) ↦ elim (Bool-cases (runs_in (w.meanwhile at_post db))) [
          | inl r ↦
              rw (f, read_form, g, k, r)
                (post_form-Settles fetched.attempts jar built.0 built.1 ops ids
                  (w.meanwhile at_post db) h r e)
          | inr r ↦
              rw (f, read_form, g, k, r)
                (settle-Settles _ ids superseded (w.meanwhile at_post db) refl bounded)
        ]
      ]

  read_form-Settles :
      (jar : Jar) (fetched : Called Answer) (ops : List CanonicalOp) (ids : List ℕ) (db : Db)
      → fetched.attempts ≤ 3
      → runs_in db ≡ true
      → length ids ≡ length ops
      → (fetched.result ≡ some broken → Uncaught)
      → Settles ids (read_form w ticket jar fetched ops ids db)
  unfolding read_form
  read_form-Settles jar fetched ops ids db h i e u =
      let bounded = only_fetches fetched.attempts h in
      elim (Option-cases fetched.result) [
        | inl f ↦ rw (f, read_form) (settle-Settles _ ids transport_failed db refl bounded)
        | inr (broken, f) ↦ rw (f, read_form) (crash-Settles _ ids db (u f) bounded i)
        | inr (answered html, f) ↦ elim (Bool-cases (is_session_bounce html)) [
          | inl g ↦ rw (f, read_form, g) (settle-Settles _ ids stage_expired db refl bounded)
          | inr g ↦ page-Settles jar fetched html ops ids db h e f g
        ]
      ]

  -- With an audit row for each operation, a claimed job comes to its terminal transaction with a
  -- final status, one outcome other than pending for each audit row, in order, and calls of the
  -- adapter within the bound: at most three fetches of the form, then at most three posts of one
  -- payload to one URL, then at most one fetch of the results, which needs a post before it. Or it is
  -- stopped within the bound, while the job runs, by what the engine does not catch: the URL join's
  -- ValueError, or an exception of a call other than those that it handles.
  pub execute_claimed-Settles :
      (ops : List CanonicalOp) (ids : List ℕ) (db : Db)
      → length ids ≡ length ops
      → Settles ids (execute_claimed w ticket ops ids db)
  unfolding execute_claimed
  execute_claimed-Settles ops ids db e =
      let bounded = only_fetches 0 (omega arith) in
      elim (Option-cases (w.load_selcrs ticket.session_ref)) [
        | inl f ↦ rw (f, execute_claimed) (settle-Settles [] ids stage_expired db refl bounded)
        | inr (jar, f) ↦ elim (Bool-cases (runs_in (w.meanwhile at_fetch db))) [
          | inl g ↦
              let answer = w.get_write_form jar ticket.form_url in
              rw (f, execute_claimed, g)
                (read_form-Settles jar (transport_call answer) ops ids (w.meanwhile at_fetch db)
                  (three_attempts answer).1 g e
                  (λ r. let (k, b) = result_answered answer broken r in form_broken jar k b))
          | inr g ↦
              rw (f, execute_claimed, g)
                (settle-Settles [] ids superseded (w.meanwhile at_fetch db) refl bounded)
        ]
      ]
