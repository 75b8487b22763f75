-- ===== src/Stage/Probe.antt =====
-- The live probe of the stage: `probe_stage` of backend/app/api/write_probe.py, and the handler of
-- backend/app/api/stage.py. The school and the URL join are parameters; `none` is SelcrsUnavailable.
use nsysu_crs.Common.{
  ℕ, Text, codes, Bool, false, Option, none, some, Result, ok, raise, if◌then◌else◌, text_eq, ◌&&◌,
  ◌==◌,
}
use nsysu_crs.Auth.Breaker.{SchoolBreaker, admit, record_classified, record_unknown}
use nsysu_crs.Auth.Redis.{FakeRedis}
use nsysu_crs.Auth.Sessions.{load_selcrs}
use nsysu_crs.Stage.{
  Studfun, StudfunDetection, parse_studfun, is_writable, detect_need_confirmation,
}

-- HTTPException: the status code and the detail.
pub record HttpError : Type 0 where
  pub status_code : ℕ
  pub detail : Text

abbrev pub http : {A : Type 0} → ℕ → Text → Result HttpError A
http status_code detail = raise (record { status_code = status_code; detail = detail })

abbrev pub expired : {A : Type 0} → Result HttpError A
expired = http 401 (codes "SELCRS_EXPIRED")

abbrev pub school_unavailable : {A : Type 0} → Result HttpError A
school_unavailable = http 503 (codes "school_unavailable")

pub record SchoolPages (Params : Type 0) : Type 0 where
  pub studfun : Studfun Params
  pub get_studfun : Text → Option Text
  pub get_write_form : Text → Text → Option Text
  pub studfun_join : Text → Text

pub record StageProbe (Params : Type 0) : Type 0 where
  pub detection : StudfunDetection Params
  pub form_html : Option Text
  pub form_url : Option Text
  pub need_confirmation : Bool

module _ {Params : Type 0} (school : SchoolPages Params) where
  abbrev probe_form : Text → StudfunDetection Params → Result HttpError (StageProbe Params)
  probe_form jar detection = elim detection.form_href [
    | none ↦ ok (record {
      detection = detection;
      form_html = none;
      form_url = none;
      need_confirmation = false;
    })
    | some href ↦
        let form_url = school.studfun_join href in
        elim (school.get_write_form jar form_url) [
          | none ↦ school_unavailable
          | some form_html ↦ ok (record {
            detection = detection;
            form_html = some form_html;
            form_url = some form_url;
            need_confirmation = detect_need_confirmation form_html;
          })
        ]
  ]

  unfoldable pub probe_stage : Text → Result HttpError (StageProbe Params)
  probe_stage jar = elim (school.get_studfun jar) [
    | none ↦ school_unavailable
    | some page ↦ elim (parse_studfun school.studfun page) [
      | none ↦ expired
      | some detection ↦ probe_form jar detection
    ]
  ]

-- The breaker's part of a failed probe: an unavailable school is an unknown answer, and a bounce to
-- the login page a classified one.
unfoldable pub record_failure : SchoolBreaker → HttpError → FakeRedis → FakeRedis
record_failure b e r =
    if e.status_code == 503 && text_eq e.detail (codes "school_unavailable")
    then (record_unknown b r).1
    else if e.status_code == 401 && text_eq e.detail (codes "SELCRS_EXPIRED")
    then record_classified b r
    else r

module _ {Params : Type 0} (school : SchoolPages Params) where
  -- A school call behind the session and the breaker.
  unfoldable pub probe_guarded :
      SchoolBreaker → Text → ℕ → Text → FakeRedis → Result HttpError (StageProbe Params) × FakeRedis
  probe_guarded b nonce sliding_ttl session_id r =
      let (jar, r1) = load_selcrs session_id sliding_ttl r in
      elim jar [
        | none ↦ (expired, r1)
        | some jar_payload ↦
            let (admitted, r2) = admit b nonce r1 in
            if admitted
            then elim (probe_stage school jar_payload) [
              | raise e ↦ (raise e, record_failure b e r2)
              | ok probe ↦ (ok probe, record_classified b r2)
            ]
            else (school_unavailable, r2)
      ]

-- The response of the handler, without its time.
pub record StageResponse (Params : Type 0) : Type 0 where
  pub detection : StudfunDetection Params
  pub need_confirmation : Bool
  pub writable : Bool

unfoldable pub get_api_stage :
    {Params : Type 0}
    → SchoolPages Params
    → SchoolBreaker
    → Text
    → ℕ
    → Bool
    → Text
    → FakeRedis
    → Result HttpError (StageResponse Params) × FakeRedis
get_api_stage school b nonce sliding_ttl first_round_write session_id r =
    let (probed, r') = probe_guarded school b nonce sliding_ttl session_id r in
    elim probed [
      | raise e ↦ (raise e, r')
      | ok probe ↦ (
        ok (record {
          detection = probe.detection;
          need_confirmation = probe.need_confirmation;
          writable = is_writable probe.detection probe.need_confirmation first_round_write;
        }),
        r',
      )
    ]
