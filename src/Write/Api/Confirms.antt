-- ===== src/Write/Api/Confirms.antt =====
-- What the token of a preview (backend/app/api/write.py) stands for, when it is confirmed
-- (backend/app/api/write_submit.py).
use nsysu_crs.Common.{
  true, none, ℤ, pos, negsuc, zero, suc, ok, ok_injective, >>=-eq-ok, ℕ, ◌+◌, ◌<◌, Text, contains,
  ◌≡◌, ◌≢◌, refl, false, Option, some, List, [], ◌∷◌, map, All, all, Bool-cases, Option-cases,
  Result-cases, inl, inr,
}
use mathlib.Core.Option.{some-injective}
use nsysu_crs.Common.Sorting.{sort_by}
use nsysu_crs.Common.Split.{join}
use nsysu_crs.Auth.Redis.{FakeRedis, set, at_time}
use nsysu_crs.Auth.Tokens.{ConfirmRecord, store_confirm, consume_confirm, consume_confirm_once}
use nsysu_crs.Catalog.{Course}
use nsysu_crs.Semester.{resolve_year_sem}
use nsysu_crs.Stage.{Variant, is_writable}
use nsysu_crs.Stage.Probe.{StageProbe, probe_guarded}
use nsysu_crs.Write.Canonical.{
  Action, drop, add, rest, CanonicalOp, make_op, priority_fits, is_empty, canonical_ops,
  canonical_segments, parse_canonical_segments, payload_hash,
}
use nsysu_crs.Write.Canonical.Order.{canonical_ops-ne-nil, canonical_ops-All}
use nsysu_crs.Write.Canonical.RoundTrip.{is_natural, IsWritable, parse-canonical_segments}
use nsysu_crs.Write.Payload.{Dict}
use nsysu_crs.Write.Preview.{ResolvedOp, OpVerdict, evaluate_ops}
use nsysu_crs.Write.Lookup.{Names, resolve_course}
use nsysu_crs.Write.Request.Bounds.{Fits, AreFitting, validate_ops-passes_iff}
use nsysu_crs.Write.Request.{OpIn, max_ops, validate_ops}
use nsysu_crs.Write.Api.{
  Outside, Shown, Confirmation, Previewed, writable, build_variant, confirm_batch, answer,
  judge_batch, form_of, post_write_preview, hidden_of, token_of, variant_text,
}
use nsysu_crs.Write.Resolve.{
  through_selections, is_confirmed, QuotaOut, verdict_out, batch_of, op_of, selection_targets,
  resolve_ops, priority_at,
}

-- A code that the canonical form can carry.
pub record IsClean (code : Text) : Type 0 where
  pub named : is_empty code ≡ false
  pub no_colon : contains b':' code ≡ false
  pub no_bar : contains b'|' code ≡ false

abbrev pub AreClean : List OpVerdict → Type 0
AreClean verdicts =
    All (λ (v : OpVerdict). (code : Text) → v.code ≡ some code → IsClean code) verdicts

-- No operation has a negative priority.
abbrev AreNatural : List ResolvedOp → Type 0
AreNatural resolved = All (λ (op : ResolvedOp). is_natural op.priority ≡ true) resolved

priority_at-natural :
    (resolved : List ResolvedOp) (i : ℕ) (priority : Option ℤ)
    → AreNatural resolved
    → priority_at resolved i ≡ some priority
    → is_natural priority ≡ true
priority_at-natural [] i priority n h = cc
priority_at-natural (op ∷ resolved) zero priority n h =
    rw (← some-injective op.priority priority h) n.0
priority_at-natural (op ∷ resolved) (suc i) priority n h =
    priority_at-natural resolved i priority n.1 h

Fits-natural : (a : Action) (p : Option ℤ) → Fits a p → is_natural p ≡ true
Fits-natural a none h = refl
Fits-natural a (some (pos n)) h = refl
Fits-natural add (some (negsuc n)) h = absurd h
Fits-natural drop (some (negsuc n)) h = absurd h
Fits-natural rest (some (negsuc n)) h = absurd h

resolve_ops-AreNatural :
    (names : Names) (year_sem : Text) (courses : List Course) (codes : List Text) (index : ℕ)
    (ops : List OpIn) (resolved : List ResolvedOp)
    → AreFitting ops
    → resolve_ops names year_sem courses codes index ops ≡ ok resolved
    → AreNatural resolved
unfolding resolve_ops
resolve_ops-AreNatural names year_sem courses codes index [] resolved f h = rw (← ok_injective h) tt
resolve_ops-AreNatural names year_sem courses codes index (op ∷ ops) resolved f h =
    let course = through_selections codes op (resolve_course names year_sem op.course_id courses) in
    elim (Bool-cases (is_confirmed op course)) [
      | inr e ↦ cc (rw (e, resolve_ops) at h)
      | inl e ↦
          let (more, g, k) =
            >>=-eq-ok (resolve_ops names year_sem courses codes (index + 1) ops) _
              (rw (e, resolve_ops) at h) in
          rw (← ok_injective k) (
            Fits-natural op.action op.priority f.0,
            resolve_ops-AreNatural names year_sem courses codes (index + 1) ops more f.1 g,
          )
    ]

make_op-IsWritable :
    (a : Action) (code : Text) (priority : Option ℤ) (op : CanonicalOp)
    → is_natural priority ≡ true
    → make_op a code priority ≡ some op
    → IsClean code
    → IsWritable op
unfolding make_op
make_op-IsWritable a code priority op n h c = elim (Bool-cases (priority_fits a priority)) [
  | inr e ↦ cc (rw (e, make_op) at h)
  | inl e ↦
      let made : record { action = a; code = code; priority = priority } ≡ op =
        some-injective (record { action = a; code = code; priority = priority }) op
          (rw (e, make_op) at h) in
      rw (← made) (record {
        fits = e;
        natural = n;
        named = c.named;
        no_colon = c.no_colon;
        no_bar = c.no_bar;
      })
]

op_of-IsWritable :
    (resolved : List ResolvedOp) (v : OpVerdict) (code : Text) (op : CanonicalOp)
    → AreNatural resolved
    → op_of resolved v code ≡ some op
    → IsClean code
    → IsWritable op
op_of-IsWritable resolved v code op n h c = elim (Option-cases (priority_at resolved v.index)) [
  | inl e ↦ cc (rw (e, op_of) at h)
  | inr (priority, e) ↦
      make_op-IsWritable v.action code priority op
        (priority_at-natural resolved v.index priority n e) (rw (e, op_of) at h) c
]

batch_of-IsWritable :
    (resolved : List ResolvedOp) (verdicts : List OpVerdict) (ops : List CanonicalOp)
    → AreNatural resolved
    → batch_of resolved verdicts ≡ some ops
    → AreClean verdicts
    → All IsWritable ops
unfolding batch_of
batch_of-IsWritable resolved [] ops n h c = rw (← some-injective [] ops h) tt
batch_of-IsWritable resolved (v ∷ verdicts) ops n h c = elim (Option-cases v.code) [
  | inl e ↦ batch_of-IsWritable resolved verdicts ops n (rw (e, batch_of) at h) c.1
  | inr (code, e) ↦ elim (Option-cases (op_of resolved v code)) [
    | inl f ↦ cc (rw (e, batch_of, f) at h)
    | inr (op, f) ↦ elim (Option-cases (batch_of resolved verdicts)) [
      | inl g ↦ cc (rw (e, batch_of, f, g) at h)
      | inr (more, g) ↦
          let all_ops : op ∷ more ≡ ops =
            some-injective (op ∷ more) ops (rw (e, batch_of, f, g) at h) in
          rw (← all_ops) (
            op_of-IsWritable resolved v code op n f (c.0 code e),
            batch_of-IsWritable resolved verdicts more n g c.1,
          )
    ]
  ]
]

segments_ne_nil : (ops : List CanonicalOp) → canonical_segments (canonical_ops ops) ≢ [] → ops ≢ []
unfolding canonical_segments canonical_ops join sort_by
segments_ne_nil [] n e = n refl
segments_ne_nil (op ∷ ops) n e = cc

-- No code that is shown is empty or holds a separator.
abbrev pub AreShownClean : {Params : Type 0} → Shown Params → Type 0
AreShownClean shown =
    All (λ (v : OpVerdict × Option QuotaOut). (code : Text) → v.0.code ≡ some code → IsClean code)
      shown.ops

shown_clean :
    (verdicts : List OpVerdict)
    → All
        (λ (v : OpVerdict × Option QuotaOut). (code : Text) → v.0.code ≡ some code → IsClean code)
        (map verdict_out verdicts)
    → AreClean verdicts
unfolding verdict_out
shown_clean [] h = tt
shown_clean (v ∷ verdicts) h = (h.0, shown_clean verdicts h.1)

module _ {Params : Type 0} (out : Outside Params) (student_no : Text) where
  -- The token is good for a record of the student, whose operations parse to a batch with the
  -- response's hash.
  abbrev pub Confirms : Confirmation → FakeRedis → Type 0
  Confirms conf r =
      (entitled : ConfirmRecord) × (ops : List CanonicalOp) × ((consume_confirm out.records
          conf.confirm_token r).0
        ≡ some entitled)
      × (entitled.student_no ≡ student_no)
      × (parse_canonical_segments entitled.canonical_ops ≡ some ops)
      × (payload_hash out.sha256_hex student_no ops ≡ conf.payload_hash)

  abbrev IsRead : Type 0
  IsRead =
      (entitled : ConfirmRecord) → out.records.validate (out.records.dump entitled) ≡ some entitled

  -- What is said of a response.
  Says : Previewed Params → FakeRedis → Type 0
  Says (writable shown conf) r =
      conf.canonical_ops ≢ []
      → AreShownClean shown
      → IsRead
      → (now : ℕ) → now < r.now + out.confirm_token_ttl
      → Confirms conf (at_time now r)
  Says reply r = Unit

  confirm_batch-Says :
      (shown : Shown Params) (hidden : Dict) (ops : List CanonicalOp) (r : FakeRedis)
      → (AreShownClean shown → All IsWritable ops)
      → let res = confirm_batch out student_no shown hidden ops r in Says res.0 res.1
  unfolding confirm_batch Says store_confirm set
  confirm_batch-Says shown hidden ops r w =
      let canonical = canonical_ops ops in
      elim (Result-cases (build_variant shown.variant canonical hidden)) [
        | inl (e, f) ↦ rw (f, confirm_batch) tt
        | inr (payload, f) ↦
            rw (f, confirm_batch)
              (λ ne clean json now h.
                let entitled : ConfirmRecord = record {
                  student_no = student_no;
                  canonical_ops = canonical_segments canonical;
                  variant = variant_text shown.variant;
                  form_url = shown.form_url;
                } in
                let some_ops = segments_ne_nil ops ne in
                (
                  entitled,
                  canonical,
                  (consume_confirm_once out.records (token_of out student_no canonical) entitled
                      out.confirm_token_ttl now now r (json entitled) h).0,
                  refl,
                  parse-canonical_segments canonical (canonical_ops-ne-nil ops some_ops)
                      (canonical_ops-All IsWritable ops (w clean)),
                  refl,
                ))
      ]

  answer-Says :
      (probe : StageProbe Params) (variant : Variant) (form_html form_url : Text)
      (resolved : List ResolvedOp) (verdicts : List OpVerdict) (r : FakeRedis)
      → AreNatural resolved
      → let res = answer out student_no probe variant form_html form_url resolved verdicts r in
        Says res.0 res.1
  unfolding answer Says
  answer-Says probe variant form_html form_url resolved verdicts r n =
      elim (Bool-cases (all (λ (v : OpVerdict). v.writable) verdicts)) [
        | inr e ↦ rw (e, answer) tt
        | inl e ↦ elim (Option-cases (batch_of resolved verdicts)) [
          | inl f ↦ rw (e, answer, f) tt
          | inr (ops, f) ↦
              rw (e, answer, f)
                (confirm_batch-Says _ (hidden_of out student_no probe form_html) ops r (λ clean.
                  batch_of-IsWritable resolved verdicts ops n f (shown_clean verdicts clean)))
        ]
      ]

  judge_batch-Says :
      (courses : List Course) (session_id : Text) (ops : List OpIn) (probe : StageProbe Params)
      (variant : Variant) (form_html form_url : Text) (r : FakeRedis)
      → AreFitting ops
      → let res =
          judge_batch out student_no courses session_id ops probe variant form_html form_url r in
        Says res.0 res.1
  unfolding judge_batch Says
  judge_batch-Says courses session_id ops probe variant form_html form_url r0 fitting =
      let r = (resolve_year_sem out.semester_year_sem out.discover r0).1 in
      elim (Option-cases (resolve_year_sem out.semester_year_sem out.discover r0).0) [
        | inl e ↦ rw (e, judge_batch) tt
        | inr (year_sem, e) ↦
            elim (Result-cases
              (selection_targets out.snapshots out.names year_sem courses session_id r)) [
                | inl (x, f) ↦ rw (e, judge_batch, f) tt
                | inr (sel, f) ↦
                    elim (Result-cases
                      (resolve_ops out.names year_sem courses sel.selected_codes 0 ops)) [
                        | inl (x, g) ↦ rw (e, judge_batch, f, g) tt
                        | inr (resolved, g) ↦ elim (Result-cases (evaluate_ops sel resolved)) [
                          | inl (x, h) ↦ rw (e, judge_batch, f, g, h) tt
                          | inr (verdicts, h) ↦
                              rw (e, judge_batch, f, g, h)
                                (answer-Says probe variant form_html form_url resolved verdicts r (
                                  resolve_ops-AreNatural out.names year_sem courses
                                    sel.selected_codes 0 ops resolved fitting g))
                        ]
                      ]
              ]
      ]

  preview-Says :
      (courses : List Course) (session_id : Text) (ops : List OpIn) (r : FakeRedis)
      → let res = post_write_preview out student_no courses session_id ops r in Says res.0 res.1
  unfolding post_write_preview Says
  preview-Says courses session_id ops r0 =
      let probing = probe_guarded out.school out.breaker out.nonce out.sliding_ttl session_id r0 in
      elim (Result-cases probing.0) [
        | inl (x, e) ↦ rw (e, post_write_preview) tt
        | inr (probe, e) ↦
            elim (Bool-cases
              (is_writable probe.detection probe.need_confirmation out.first_round_write)) [
                | inr f ↦ rw (e, post_write_preview, f) tt
                | inl f ↦ elim (Option-cases (form_of out student_no probe)) [
                  | inl g ↦ rw (e, post_write_preview, f, g) tt
                  | inr ((variant, form_html, form_url), g) ↦
                      elim (Option-cases (validate_ops (max_ops variant) ops)) [
                        | inr (detail, h) ↦ rw (e, post_write_preview, f, g, h) tt
                        | inl h ↦
                            rw (e, post_write_preview, f, g, h)
                              (judge_batch-Says courses session_id ops probe variant form_html
                                form_url probing.1
                                ((validate_ops-passes_iff (max_ops variant) ops).0 h).0)
                      ]
                ]
              ]
      ]

  -- The token of a writable preview stands, until its time is over, for a record of the student whose
  -- operations parse to a batch with the hash that the response shows. The canonical text of the
  -- response is not empty, no code that it shows is empty or holds a separator, and the JSON of a
  -- record is read back as the record.
  pub post_write_preview-Confirms :
      (courses : List Course) (session_id : Text) (ops : List OpIn) (r : FakeRedis)
      (shown : Shown Params) (conf : Confirmation) (now : ℕ)
      → let res = post_write_preview out student_no courses session_id ops r in
        res.0 ≡ writable shown conf
        → conf.canonical_ops ≢ []
        → AreShownClean shown
        → ((entitled : ConfirmRecord)
            → out.records.validate (out.records.dump entitled) ≡ some entitled)
        → now < res.1.now + out.confirm_token_ttl
        → Confirms conf (at_time now res.1)
  unfolding Says
  post_write_preview-Confirms courses session_id ops r shown conf now h ne clean json before =
      let said = preview-Says courses session_id ops r in
      let said' : Says (writable shown conf) _ = rw h at said in said' ne clean json now before
