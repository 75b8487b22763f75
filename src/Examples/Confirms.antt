-- ===== src/Examples/Confirms.antt =====
-- A batch from its preview to the queue.
use nsysu_crs.Write.Reconcile.{items_refused}
use nsysu_crs.Common.{
  ℕ, ◌+◌, ◌<◌, Text, codes, text_eq, ◌≡◌, ◌≢◌, refl, Bool, true, false, Option, none, some, List,
  [], ◌∷◌, contains, arith, ◌≤◌, ◌⊎◌, length,
}
use mathlib.Core.Option.{some-injective}
use nsysu_crs.Auth.Redis.{rpush, FakeRedis, get, set, at_time, expire, delete, getdel}
use nsysu_crs.Auth.Sessions.{
  store_selcrs, load_selcrs, load_jar_pair, store_jar_pair, selcrs_hard_key, selcrs_key,
  selections_key,
}
use nsysu_crs.Auth.Tokens.{ConfirmRecord, consume_confirm, store_confirm, confirm_key}
use nsysu_crs.Catalog.{row_payload}
use nsysu_crs.Write.Canonical.{
  is_empty, make_op, canonical_ops, confirm_token, canonical_segments, parse_canonical_segments,
  parse_segment, payload_hash, canonical_string,
}
use nsysu_crs.Write.Engine.{Worker}
use nsysu_crs.Write.Jobs.{
  Db, JobStatus, is_queued, read_job_status, find_student_id, find_active_job_by_hash,
  create_queued_job,
}
use nsysu_crs.Write.Queue.{enqueue_ticket, Turn, Consumer, write_queue_loop}
use nsysu_crs.Write.Request.{validate_ops, validate_loop}
use nsysu_crs.Write.Api.{
  Shown, Confirmation, Previewed, failed, stage_unavailable, blocked, crashed, writable,
  post_write_preview, judge_batch, answer, confirm_batch,
}
use nsysu_crs.Write.Resolve.{verdict_out, selection_targets, targets_of, resolve_ops, batch_of}
use nsysu_crs.Write.Api.Confirms.{AreShownClean, IsClean}
use nsysu_crs.Write.Queue.Turns.{waiting, IsWorking}
use nsysu_crs.Write.Queue.Drain.{write_queue_loop-starves}
use nsysu_crs.Write.Jobs.Steps.{untouched}
use nsysu_crs.Write.Submit.Replies.{IsRefused, IsQueued, IsOrphaned}
use nsysu_crs.Write.Submit.Accepted.{
  IsConfirmed, post_write_submit-Answers, post_write_submit-starts,
}
use nsysu_crs.Write.Api.Submits.{post_write_preview-submits}
use nsysu_crs.Write.Submit.{
  success, Reply, accepted, SubmitRequest, Site, Stores, post_write_submit, log_in, after_login,
  submit_ops, create_job, insert_job,
}
use nsysu_crs.Stage.Probe.{probe_guarded, probe_stage}
use nsysu_crs.Auth.Breaker.{admit, record_classified}
use nsysu_crs.Stage.{
  parse_studfun, first_form, write_variant, ends_with, is_writable, detect_need_confirmation,
}
use nsysu_crs.Common.Search.{occurs, from_first}
use nsysu_crs.Semester.{resolve_year_sem}
use nsysu_crs.Selections.Store.{load_snapshot}
use nsysu_crs.Write.Lookup.{resolve_course, info}
use nsysu_crs.Write.Timetable.{strip_right, strip_left}
use nsysu_crs.Write.Preview.{
  evaluate_ops, evaluate_loop, judge, check_op, is_mixed, check_add, first_clash,
}
use nsysu_crs.Write.Payload.{build_payload_ssprs, build, rows_total, dict_get}
use nsysu_crs.Write.Form.{parse_send_value, parse_form_hidden_inputs}
use nsysu_crs.Common.Sorting.{sort_by, insert_by, collapse_after}
use nsysu_crs.Common.Split.{join, split_on, partition}
use nsysu_crs.Common.Decimal.{pad_two, is_digits, digits_value}
use nsysu_crs.Examples.Site.{
  begun, record_json, record_read, ticket_json, ticket_read, number, out, gym_row, gym_in,
  logged_on,
}

abbrev previewed : Previewed ℕ × FakeRedis
previewed =
    post_write_preview out number (row_payload 5 900 gym_row ∷ []) (codes "s") (gym_in ∷ [])
      logged_on

abbrev is_written : {Params : Type 0} → Previewed Params → Bool
is_written (writable shown conf) = true
is_written reply = false

-- A response with a token, taken apart.
abbrev parts :
    {Params : Type 0} (p : Previewed Params)
    → is_written p ≡ true
    → (shown : Shown Params) × (conf : Confirmation) × (p ≡ writable shown conf)
parts (writable shown conf) h = (shown, conf, refl)
parts (failed e) h = cc
parts (stage_unavailable probe) h = cc
parts (blocked shown) h = cc
parts crashed h = cc

written : is_written previewed.0 ≡ true
unfolding post_write_preview probe_guarded load_selcrs load_jar_pair get store_selcrs store_jar_pair
    set text_eq selcrs_hard_key selcrs_key admit expire probe_stage parse_studfun occurs from_first
    first_form write_variant ends_with is_writable detect_need_confirmation validate_ops
    validate_loop judge_batch resolve_year_sem selection_targets targets_of load_snapshot
    record_classified delete selections_key resolve_ops resolve_course row_payload strip_right
    strip_left info evaluate_ops evaluate_loop judge check_op is_mixed check_add first_clash answer
    batch_of make_op confirm_batch build_payload_ssprs build rows_total dict_get parse_send_value
    parse_form_hidden_inputs canonical_ops sort_by insert_by collapse_after
written = refl

abbrev shown : Shown ℕ
shown = (parts previewed.0 written).0

abbrev conf : Confirmation
conf = (parts previewed.0 written).1

abbrev site : Site
site = record {
  breaker = record { failure_threshold = 3; recovery_after = 120 };
  nonce = codes "n";
  records = record_json;
  tickets = ticket_json;
  login_sso2 = λ number password. some (record { outcome = success; cookies = []; detail = none });
  serialize_cookies = λ cookies. codes "jar";
  sha256_hex = λ t. t;
  sliding_ttl = 1200;
  hard_ttl = 28800;
  pushes = true;
  before_insert = λ db. db;
  before_reread = λ db. db;
}

abbrev tables : Db
tables = record {
  students = record { id = 7; student_no = number } ∷ [];
  jobs = [];
  audits = [];
  next_student = 8;
  next_job = 1;
  next_audit = 1;
  now = 1100;
}

abbrev body : SubmitRequest
body = record { confirm_token = some conf.confirm_token; password = codes "p" }

abbrev stores : Stores
stores = record { redis = at_time 1100 previewed.1; db = tables }

abbrev submitted : Reply × Stores
submitted = post_write_submit site body (some (codes "s")) number stores

abbrev hash_shown : Text
hash_shown = codes "M123040001|+:GEAE2331:03"

filled_text : is_empty conf.canonical_ops ≡ false
unfolding written post_write_preview probe_guarded load_selcrs load_jar_pair get store_selcrs
    store_jar_pair set text_eq selcrs_hard_key selcrs_key admit expire probe_stage parse_studfun
    occurs from_first first_form write_variant ends_with is_writable detect_need_confirmation
    validate_ops validate_loop judge_batch resolve_year_sem selection_targets targets_of
    load_snapshot record_classified delete selections_key resolve_ops resolve_course row_payload
    strip_right strip_left info evaluate_ops evaluate_loop judge check_op is_mixed check_add
    first_clash answer batch_of make_op confirm_batch build_payload_ssprs build rows_total dict_get
    parse_send_value parse_form_hidden_inputs canonical_ops sort_by insert_by collapse_after
    canonical_segments join
filled_text = refl

not_empty : conf.canonical_ops ≢ []
not_empty = λ e. cc (filled_text, e)

gym-IsClean :
    (code : Text) → ◌≡◌ {A = Option Text} (some (codes "GEAE2331")) (some code) → IsClean code
unfolding contains
gym-IsClean code e =
    rw (← some-injective (codes "GEAE2331") code e)
      (record { named = refl; no_colon = refl; no_bar = refl })

clean : AreShownClean shown
unfolding written verdict_out post_write_preview probe_guarded load_selcrs load_jar_pair get
    store_selcrs store_jar_pair set text_eq selcrs_hard_key selcrs_key admit expire probe_stage
    parse_studfun occurs from_first first_form write_variant ends_with is_writable
    detect_need_confirmation validate_ops validate_loop judge_batch resolve_year_sem
    selection_targets targets_of load_snapshot record_classified delete selections_key resolve_ops
    resolve_course row_payload strip_right strip_left info evaluate_ops evaluate_loop judge check_op
    is_mixed check_add first_clash answer batch_of make_op confirm_batch build_payload_ssprs build
    rows_total dict_get parse_send_value parse_form_hidden_inputs canonical_ops sort_by insert_by
    collapse_after
clean = (gym-IsClean, tt)

in_time : 1100 < previewed.1.now + 600
unfolding post_write_preview probe_guarded load_selcrs load_jar_pair get store_selcrs store_jar_pair
    set text_eq selcrs_hard_key selcrs_key admit expire probe_stage parse_studfun occurs from_first
    first_form write_variant ends_with is_writable detect_need_confirmation validate_ops
    validate_loop judge_batch resolve_year_sem selection_targets targets_of load_snapshot
    record_classified delete selections_key resolve_ops resolve_course row_payload strip_right
    strip_left info evaluate_ops evaluate_loop judge check_op is_mixed check_add first_clash answer
    batch_of make_op confirm_batch build_payload_ssprs build rows_total dict_get parse_send_value
    parse_form_hidden_inputs canonical_ops sort_by insert_by collapse_after store_confirm
in_time = omega arith

told : submitted.0 ≡ accepted 1 hash_shown
unfolding post_write_submit post_write_preview probe_guarded load_selcrs load_jar_pair get
    store_selcrs store_jar_pair set text_eq selcrs_hard_key selcrs_key admit expire probe_stage
    parse_studfun occurs from_first first_form write_variant ends_with is_writable
    detect_need_confirmation validate_ops validate_loop judge_batch resolve_year_sem
    selection_targets targets_of load_snapshot record_classified delete selections_key resolve_ops
    resolve_course row_payload strip_right strip_left info evaluate_ops evaluate_loop judge check_op
    is_mixed check_add first_clash answer batch_of make_op confirm_batch build_payload_ssprs build
    rows_total dict_get parse_send_value parse_form_hidden_inputs canonical_ops sort_by insert_by
    collapse_after confirm_token consume_confirm getdel at_time store_confirm confirm_key
    canonical_segments join pad_two begun log_in after_login submit_ops parse_canonical_segments
    split_on parse_segment partition is_digits create_job find_student_id find_active_job_by_hash
    insert_job create_queued_job payload_hash canonical_string digits_value
told = refl

post_write_preview-submits_example : hash_shown ≡ conf.payload_hash
post_write_preview-submits_example =
    post_write_preview-submits out number site body (some (codes "s"))
      (row_payload 5 900 gym_row ∷ []) (codes "s") (gym_in ∷ []) logged_on shown conf 1100 stores 1
      hash_shown (parts previewed.0 written).2 not_empty clean record_read in_time refl refl refl
      refl told

post_write_submit-Answers_example :
    IsRefused site (waiting stores.redis) tables submitted
    ⊎ ((entitled : ConfirmRecord) × IsConfirmed site body number stores.redis entitled
        × (IsQueued site number (some (codes "s")) entitled (waiting stores.redis) tables submitted
            ⊎ IsOrphaned site number
                (some (codes "s"))
                entitled
                (waiting stores.redis)
                tables
                submitted))
post_write_submit-Answers_example =
    post_write_submit-Answers site body (some (codes "s")) number stores

-- A worker whose school never answers.
abbrev worker : Worker ℕ
worker = record {
  cutoff = 500;
  sink_up = true;
  load_selcrs = λ session. some 1;
  load_selcrs_again = λ session. some 1;
  get_write_form = λ jar url attempt. none;
  post_write = λ jar url payload referer attempt. none;
  get_slt_result = λ jar. items_refused;
  meanwhile = λ moment db. db;
  html = record { inputs = λ page. []; form_actions = λ page. [] };
  tables = record { is_word = λ c. true; nfkc = λ t. t };
  url_join = λ base url. some url;
  sha256_hex = λ t. t;
  audit_stuid_hash = λ t. t;
}

abbrev turn : List Text → Turn ℕ
turn pushed = record { pushed = pushed; worker = worker; moment = 40; older_than = 500 }

quiet : IsWorking ticket_json (turn [])
quiet moment db = untouched

one_waits : length (waiting submitted.1.redis) ≤ 1
unfolding post_write_submit post_write_preview probe_guarded load_selcrs load_jar_pair get
    store_selcrs store_jar_pair set text_eq selcrs_hard_key selcrs_key admit expire probe_stage
    parse_studfun occurs from_first first_form write_variant ends_with is_writable
    detect_need_confirmation validate_ops validate_loop judge_batch resolve_year_sem
    selection_targets targets_of load_snapshot record_classified delete selections_key resolve_ops
    resolve_course row_payload strip_right strip_left info evaluate_ops evaluate_loop judge check_op
    is_mixed check_add first_clash answer batch_of make_op confirm_batch build_payload_ssprs build
    rows_total dict_get parse_send_value parse_form_hidden_inputs canonical_ops sort_by insert_by
    collapse_after confirm_token consume_confirm getdel at_time store_confirm confirm_key
    canonical_segments join pad_two begun log_in after_login submit_ops parse_canonical_segments
    split_on parse_segment partition is_digits create_job find_student_id find_active_job_by_hash
    insert_job create_queued_job payload_hash canonical_string digits_value enqueue_ticket rpush
one_waits = omega arith

abbrev consumer : Consumer
consumer = record { redis = submitted.1.redis; db = submitted.1.db; next_sweep = 0; contacts = [] }

post_write_submit-starts_example :
    (t : JobStatus) × (read_job_status 1
        (write_queue_loop ticket_json 30 (turn [] ∷ []) consumer).db
      ≡ some t)
    × (is_queued t ≡ false)
post_write_submit-starts_example =
    post_write_submit-starts site body (some (codes "s")) number 30 0 1 hash_shown (turn [] ∷ [])
      stores told ticket_read ((refl, quiet), tt) one_waits

write_queue_loop-starves_example :
    waiting (write_queue_loop ticket_json 30 (turn (codes "new" ∷ []) ∷ []) consumer).redis
    ≡ waiting submitted.1.redis
write_queue_loop-starves_example =
    write_queue_loop-starves ticket_json 30 (turn (codes "new" ∷ []) ∷ []) consumer
      ((codes "new", refl), tt)
