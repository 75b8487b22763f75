-- ===== src/Write/Api.antt =====
-- POST /api/write/preview of backend/app/api/write.py: a batch from the request to the stored record
-- that its token stands for.
pub mod Confirms
pub mod Submits
use nsysu_crs.Common.{
  ℕ, Text, codes, text_eq, Bool, true, false, not, ◌&&◌, ◌||◌, ◌+◌, ◌>>=◌, Option, none, some, List,
  [], ◌∷◌, ◌++◌, map, any, all, get_elem?, if◌then◌else◌, String, Result, ok, raise, ℤ, pos, negsuc,
}
use nsysu_crs.Common.Sorting.{sort_by}
use nsysu_crs.Auth.Breaker.{SchoolBreaker}
use nsysu_crs.Auth.Redis.{FakeRedis}
use nsysu_crs.Auth.Tokens.{ConfirmRecord, RecordJson, store_confirm}
use nsysu_crs.Catalog.{Course}
use nsysu_crs.Selections.{SelectionItem, item_identity}
use nsysu_crs.Selections.Store.{SnapshotJson, load_snapshot}
use nsysu_crs.Semester.{resolve_year_sem}
use nsysu_crs.Stage.{StudfunDetection, Variant, ssform, stage5, is_writable}
use nsysu_crs.Stage.Probe.{HttpError, http, SchoolPages, StageProbe, probe_guarded}
use nsysu_crs.Write.Canonical.{
  Action, drop, add, rest, CanonicalOp, make_op, canonical_ops, canonical_segments, payload_hash,
  confirm_token,
}
use nsysu_crs.Write.Form.{Html, parse_form_hidden_inputs, parse_send_value}
use nsysu_crs.Write.Lookup.{Names, resolve_course, resolve_courses_by_ids, bare_course}
use nsysu_crs.Write.Payload.{
  Dict, PayloadError, set_default, send_name, build_payload_ssprs, build_payload_stage5,
}
use nsysu_crs.Write.Preview.{
  CourseInfo, ResolvedOp, ClashTarget, OpVerdict, Selections, evaluate_ops, is_drop,
}
use nsysu_crs.Write.Request.{OpIn, max_ops, validate_ops}
use nsysu_crs.Write.Timetable.{UnknownPeriodCode, days_from_fused, strip}
use nsysu_crs.Write.Resolve.{
  QuotaOut, verdict_out, selection_targets, resolve_ops, quota_as_of, batch_of,
}

-- What is outside: the school, the libraries, the settings and the discovery of the semester.
pub record Outside (Params : Type 0) : Type 0 where
  pub school : SchoolPages Params
  pub params_items : Params → List (Text × Option Text)
  pub html : Html
  pub names : Names
  pub records : RecordJson
  pub snapshots : SnapshotJson
  pub sha256_hex : Text → Text
  pub sha256_b64 : Text → Text
  pub discover : Option Text
  pub breaker : SchoolBreaker
  pub nonce : Text
  pub sliding_ttl : ℕ
  pub confirm_token_ttl : ℕ
  pub semester_year_sem : Text
  pub first_round_write : Bool
  pub app_secret : Text

abbrev pub variant_text : Variant → Text
variant_text ssform = codes "ssform"
variant_text stage5 = codes "stage5"

-- _BUILDERS[variant]
abbrev pub build_variant : Variant → List CanonicalOp → Dict → Result PayloadError Dict
build_variant ssform ops hidden = build_payload_ssprs ops hidden
build_variant stage5 ops hidden = build_payload_stage5 ops hidden

abbrev default_items : List (Text × Option Text) → Dict → Dict
default_items [] hidden = hidden
default_items ((key, none) ∷ items) hidden = default_items items hidden
default_items ((key, some value) ∷ items) hidden =
    default_items items (set_default key value hidden)

abbrev default_send : Option Text → Dict → Dict
default_send none hidden = hidden
default_send (some value) hidden = set_default send_name value hidden

-- What the token stands for, and what the response shows of it.
pub record Confirmation : Type 0 where
  pub payload : Dict
  pub confirm_token : Text
  pub payload_hash : Text
  pub canonical_ops : Text

pub record Shown (Params : Type 0) : Type 0 where
  pub detection : StudfunDetection Params
  pub variant : Variant
  pub form_url : Text
  pub ops : List (OpVerdict × Option QuotaOut)
  pub quota_as_of : Option Text

-- The responses: an HTTPException, the 409 of a closed stage, a preview that is not writable, one that
-- is, and an exception that the handler does not catch.
pub data Previewed (Params : Type 0) : Type 0 where
  failed : HttpError → Previewed Params
  stage_unavailable : StageProbe Params → Previewed Params
  blocked : Shown Params → Previewed Params
  writable : Shown Params → Confirmation → Previewed Params
  crashed : Previewed Params

module _ {Params : Type 0} (out : Outside Params) (student_no : Text) where
  abbrev pub hidden_of : StageProbe Params → Text → Dict
  hidden_of probe form_html = default_send (parse_send_value out.html form_html) (
      default_items
        (elim probe.detection.params [ none ↦ [] | some params ↦ out.params_items params ])
        (parse_form_hidden_inputs out.html form_html))

  abbrev pub token_of : List CanonicalOp → Text
  token_of canonical = confirm_token out.sha256_b64 student_no canonical out.app_secret

  -- The replay is assembled, and the record of the batch stored under its token.
  unfoldable pub confirm_batch :
      Shown Params → Dict → List CanonicalOp → FakeRedis → Previewed Params × FakeRedis
  confirm_batch shown hidden ops r =
      let canonical = canonical_ops ops in
      let segments = canonical_segments canonical in
      let token = token_of canonical in
      elim (build_variant shown.variant canonical hidden) [
        | raise e ↦ (crashed, r)
        | ok payload ↦ (
          writable shown (record {
            payload = payload;
            confirm_token = token;
            payload_hash = payload_hash out.sha256_hex student_no canonical;
            canonical_ops = segments;
          }),
          store_confirm out.records token
              (record {
                student_no = student_no;
                canonical_ops = segments;
                variant = variant_text shown.variant;
                form_url = shown.form_url;
              })
              out.confirm_token_ttl r,
        )
      ]

  -- Behind the verdicts.
  unfoldable pub answer :
      StageProbe Params
      → Variant
      → Text
      → Text
      → List ResolvedOp
      → List OpVerdict
      → FakeRedis
      → Previewed Params × FakeRedis
  answer probe variant form_html form_url resolved verdicts r =
      let shown : Shown Params = record {
        detection = probe.detection;
        variant = variant;
        form_url = form_url;
        ops = map verdict_out verdicts;
        quota_as_of = quota_as_of verdicts;
      } in
      if all (λ (v : OpVerdict). v.writable) verdicts
      then elim (batch_of resolved verdicts) [
        | none ↦ (crashed, r)
        | some ops ↦ confirm_batch shown (hidden_of probe form_html) ops r
      ]
      else (blocked shown, r)

  -- From the semester to the verdicts.
  unfoldable pub judge_batch :
      List Course
      → Text
      → List OpIn
      → StageProbe Params
      → Variant
      → Text
      → Text
      → FakeRedis
      → Previewed Params × FakeRedis
  judge_batch courses session_id ops probe variant form_html form_url r0 =
      let (semester, r) = resolve_year_sem out.semester_year_sem out.discover r0 in
      elim semester [
        | none ↦ (failed (record { status_code = 503; detail = codes "school_unavailable" }), r)
        | some year_sem ↦
            elim (selection_targets out.snapshots out.names year_sem courses session_id r) [
              | raise e ↦ (crashed, r)
              | ok sel ↦ elim (resolve_ops out.names year_sem courses sel.selected_codes 0 ops) [
                | raise e ↦ (failed e, r)
                | ok resolved ↦ elim (evaluate_ops sel resolved) [
                  | raise e ↦ (crashed, r)
                  | ok verdicts ↦ answer probe variant form_html form_url resolved verdicts r
                ]
              ]
            ]
      ]

  abbrev pub form_of : StageProbe Params → Option (Variant × Text × Text)
  form_of probe = elim probe.detection.variant [
    | none ↦ none
    | some variant ↦ elim probe.form_html [
      | none ↦ none
      | some form_html ↦ elim probe.form_url [
        | none ↦ none
        | some form_url ↦ some (variant, form_html, form_url)
      ]
    ]
  ]

  -- The handler.
  unfoldable pub post_write_preview :
      List Course → Text → List OpIn → FakeRedis → Previewed Params × FakeRedis
  post_write_preview courses session_id ops r0 =
      let (probed, r) =
        probe_guarded out.school out.breaker out.nonce out.sliding_ttl session_id r0 in
      elim probed [
        | raise e ↦ (failed e, r)
        | ok probe ↦
            if is_writable probe.detection probe.need_confirmation out.first_round_write
            then elim (form_of probe) [
              | none ↦
                  (failed (record { status_code = 503; detail = codes "school_unavailable" }), r)
              | some (variant, form_html, form_url) ↦ elim (validate_ops (max_ops variant) ops) [
                | some detail ↦ (failed (record { status_code = 400; detail = detail }), r)
                | none ↦ judge_batch courses session_id ops probe variant form_html form_url r
              ]
            ]
            else (stage_unavailable probe, r)
      ]
