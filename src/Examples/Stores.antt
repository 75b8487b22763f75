-- ===== src/Examples/Stores.antt =====
-- The states that the program keeps in Redis, the stage and the solver.
use nsysu_crs.Common.{
  get_elem?, ℕ, suc, ◌≤◌, Text, codes, text_eq, text_eq_refl, ◌≡◌, refl, ◌⊎◌, Bool, true, false,
  none, some, [], ◌∷◌, if◌then◌else◌, arith,
}
use nsysu_crs.Common.Search.{occurs, from_first, after_prefix}
use nsysu_crs.Common.Decimal.{digits_value}
use nsysu_crs.Auth.Redis.{FakeRedis, get, set, at_time, zcard, zadd, expire, zremrangebyscore}
use nsysu_crs.Auth.Breaker.{
  record_classified-closes, SchoolBreaker, opened_at_key, admit, record_unknown, record_classified,
  record_unknown-opens, admit_once,
}
use nsysu_crs.Auth.Lockout.Locks.{record_credential_fail-locks}
use nsysu_crs.Auth.Sessions.Ends.{selcrs_loads, load_selcrs_expires, delete_site_session-ends}
use nsysu_crs.Auth.Lockout.{FailureLog, fail_log_key, is_locked, logged, record_credential_fail}
use nsysu_crs.Auth.Sessions.{
  store_selcrs, load_selcrs, resolve_site_session, delete_site_session, load_regweb, load_stusco,
}
use nsysu_crs.Auth.Tokens.{
  ConfirmRecord, RecordJson, store_confirm, consume_confirm, consume_confirm_once,
}
use nsysu_crs.Stage.{
  Studfun, StudfunDetection, Variant, ssform, stage5, write_variant, first_form, ends_with,
  detected, parse_studfun, is_writable, writable_form,
}
use nsysu_crs.Solver.{School, Ends, run_page, run_page_lem}

abbrev empty : FakeRedis
empty = record { now = 1000; values = λ name. none; zsets = λ name. []; lists = λ name. [] }

abbrev breaker : SchoolBreaker
breaker = record { failure_threshold = 1; recovery_after = 120 }

-- After an answer the first unknown one reaches the threshold of 1.
abbrev answered : FakeRedis
answered = at_time 1000 (record_classified breaker empty)

answered_first : 1 ≤ (record_unknown breaker answered).0
answered_first = rw ((record_classified-closes breaker empty 1000 (codes "a")).1) (omega arith)

answered_at : answered.now ≡ 1000
unfolding at_time
answered_at = refl

record_unknown-opens_example :
    (admit breaker (codes "b") (at_time 1119 (record_unknown breaker answered).1)).0 ≡ false
record_unknown-opens_example =
    record_unknown-opens breaker answered 1119 (codes "b") answered_first
      (rw answered_at (omega arith))

-- Opened at 1000 without expiry, and now it is 1130.
abbrev half_open : FakeRedis
half_open = record empty {
  now = 1130;
  values = λ name. if text_eq name opened_at_key then some (codes "1000", none) else none;
}

opened_before : half_open.values opened_at_key ≡ some (codes "1000", none)
opened_before = rw (text_eq_refl opened_at_key) refl

probe_admitted : (admit breaker (codes "a") half_open).0 ≡ true
unfolding admit get set text_eq digits_value
probe_admitted = refl

admit_once_example :
    (admit breaker (codes "b") (at_time 1150 (admit breaker (codes "a") half_open).1)).0 ≡ false
admit_once_example =
    admit_once breaker half_open (codes "1000") 1150 (codes "a") (codes "b") opened_before
      probe_admitted (omega arith) (omega arith)

abbrev log : FailureLog
log = record { fail_limit = 1; window_seconds = 900; day_of = λ moment. codes "20260828" }

abbrev student : Text
student = codes "M123040001"

first_fails : (record_credential_fail log (codes "a") student empty).0 ≡ true
unfolding record_credential_fail logged zcard zadd expire zremrangebyscore fail_log_key text_eq
first_fails = refl

record_credential_fail-locks_example :
    (log.fail_limit ≤ zcard (fail_log_key student) (logged log (codes "a") student empty))
    × (is_locked log student (record_credential_fail log (codes "a") student empty).1 ≡ true)
record_credential_fail-locks_example =
    record_credential_fail-locks log (codes "a") student empty (omega arith) first_fails

load_selcrs_expires_example :
    (load_selcrs (codes "s") 1800 (
      at_time 9000 (
        selcrs_loads
          (codes "s")
          1800
          (2000 ∷ 3000 ∷ [])
          (store_selcrs (codes "s") (codes "jar") 1800 7200 empty)))).0
    ≡ none
load_selcrs_expires_example =
    load_selcrs_expires (codes "s") (codes "jar") 1800 7200 9000 (2000 ∷ 3000 ∷ []) empty refl
      (omega arith)

abbrev signed_in : FakeRedis
signed_in = store_selcrs (codes "s") (codes "jar") 1800 7200 empty

delete_site_session-ends_example :
    ((resolve_site_session (codes "s") (at_time 1001 (delete_site_session (codes "s") signed_in))).0
      ≡ none)
    × ((load_selcrs (codes "s") 1800 (at_time 1001 (delete_site_session (codes "s") signed_in))).0
        ≡ none)
    × ((load_regweb (codes "s") 1800 (at_time 1001 (delete_site_session (codes "s") signed_in))).0
        ≡ none)
    × ((load_stusco (codes "s") 1800 (at_time 1001 (delete_site_session (codes "s") signed_in))).0
        ≡ none)
delete_site_session-ends_example = delete_site_session-ends (codes "s") 1800 1001 signed_in

-- A JSON that writes one field and validates one record.
abbrev entitled : ConfirmRecord
entitled = record {
  student_no = student;
  canonical_ops = codes "+:GEAE2331:03";
  variant = codes "ssform";
  form_url = codes "ssform.asp";
}

abbrev json : RecordJson
json = record { dump = λ r. r.canonical_ops; validate = λ t. some entitled }

consume_confirm_once_example :
    ((consume_confirm json
        (codes "t")
        (at_time 1200 (store_confirm json (codes "t") entitled 300 empty))).0
      ≡ some entitled)
    × ((consume_confirm json (codes "t") (
          at_time 1201
            (consume_confirm json
              (codes "t")
              (at_time 1200 (store_confirm json (codes "t") entitled 300 empty))).1)).0
        ≡ none)
consume_confirm_once_example =
    consume_confirm_once json (codes "t") entitled 300 1200 1201 empty refl (omega arith)

-- A page with a link of the form of the first round.
abbrev studfun : Studfun ℕ
studfun = record {
  hrefs = λ page. codes "stage5/saddstage5.asp" ∷ [];
  anchor_texts = λ page. [];
  visible = λ page. page;
  url_path = λ href. href;
  params_from = λ href. 0;
}

abbrev detection : StudfunDetection ℕ
detection = detected studfun (some (codes "stage5/saddstage5.asp", stage5)) []

page_detected : parse_studfun studfun [] ≡ some detection
unfolding parse_studfun first_form write_variant ends_with text_eq occurs from_first after_prefix
page_detected = refl

detection_writable : is_writable detection false true ≡ true
unfolding is_writable
detection_writable = refl

writable_form_example :
    (false ≡ false)
    × (i : ℕ) × (href : Text) × (variant : Variant) × (get_elem? (studfun.hrefs []) i ≡ some href)
    × (detection.form_href ≡ some href)
    × (write_variant studfun href ≡ some variant)
    × ((variant ≡ ssform) ⊎ (◌≡◌ {A = Bool} true true))
writable_form_example =
    writable_form studfun [] detection false true page_detected detection_writable

-- A school whose pages are the codes that it is sent.
abbrev school : School ℕ ℕ
school = record {
  fetch_validcode = λ attempt jar. elim jar [ none ↦ some 1 | some j ↦ some (suc j) ];
  cookies = λ image. image;
  solve = λ image. image ∷ [];
  fetch_catalog_page = λ attempt code jar. some code;
  nfkc = λ t. t;
}

run_page_lem_example : Ends school 3 3 1 none (run_page school 3)
run_page_lem_example = run_page_lem school 3
