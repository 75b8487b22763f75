-- ===== src/Examples/Runs.antt =====
-- Runs of the write path: the statements on the tables, a retried call, and a ticket.
use nsysu_crs.Write.Reconcile.{items_refused}
use nsysu_crs.Write.JobView.{get_write_job}
use nsysu_crs.Write.JobView.Owned.{IsOwnView, get_write_job-IsOwnView}
use nsysu_crs.Write.Jobs.{find_student_id}
use nsysu_crs.Common.{
  pos, ℕ, zero, suc, Text, codes, ◌≡◌, refl, ◌⊎◌, inl, inr, true, false, Option, none, some, List,
  [], ◌∷◌, All, text_eq, contains,
}
use nsysu_crs.Selections.{SelectionItem}
use nsysu_crs.Write.Canonical.{add, CanonicalOp, canonical_segments, parse_canonical_segments}
use nsysu_crs.Write.Canonical.RoundTrip.{IsWritable, parse-canonical_segments}
use nsysu_crs.Write.Jobs.{
  JobStatus, queued, running, done, WriteJob, Db, OutcomeUpdate, unknown_reconciled, success,
  rejected, read_job, read_job_status, claim_job, new_job, record_successful_login,
}
use nsysu_crs.Write.Jobs.Steps.{claimed, logged_in, waited, Reach, untouched, followed}
use nsysu_crs.Write.Jobs.Status.{may_follow, Reach-final, Reach-status}
use nsysu_crs.Write.Jobs.Unique.{IsUnique, Reach-IsUnique}
use nsysu_crs.Write.Transport.{backoff_seconds, IsAnswered, IsExhausted, transport_call_lem}
use nsysu_crs.Write.Reconcile.{reconcile_one, reconcile_updates}
use nsysu_crs.Write.Reconcile.Verdicts.{AreReconciled, reconcile_updates_lem, other_code_unseen}
use nsysu_crs.Write.Engine.{QueueTicket, Worker, execute_claimed, execute_ticket}
use nsysu_crs.Write.Engine.Contacts.{Settles, execute_claimed-Settles}
use nsysu_crs.Selcrs.{request_with_backoff}
use nsysu_crs.Selcrs.Attempts.{IsTried, request_with_backoff_lem}
use nsysu_crs.Write.Engine.Ticket.{IsSilent, Ran, execute_ticket_claimed, execute_ticket-IsSilent}
use nsysu_crs.Common.Search.{occurs, from_first, after_prefix, after_prefix_ci, to_bracket}
use nsysu_crs.Write.Timetable.{strip_left, strip_right}
use nsysu_crs.Write.Response.{
  page_verdict, classify_fragment, row_bodies, strip_tags, Tables, code_verdict, failure_section,
  fragment_for_code, has_marker, success_markers, failure_markers, fold_text, clean_cell_text,
}
use nsysu_crs.Write.Response.Classified.{code_verdict-success}

abbrev add_gym : CanonicalOp
add_gym = record { action = add; code = codes "GEAE2331"; priority = some (pos 3) }

abbrev job_in : JobStatus → WriteJob
job_in status = record (new_job 1 7 (add_gym ∷ []) (codes "hash") 100) { status = status }

abbrev table : List WriteJob → Db
table jobs = record {
  students = [];
  jobs = jobs;
  audits = [];
  next_student = 8;
  next_job = 2;
  next_audit = 1;
  now = 120;
}

-- A claim and then a login of the student, with the clock moved on in between.
later_login :
    (db : Db)
    → Reach db
        (record_successful_login
          (codes "M123040001")
          (record (claim_job 1 50 db).1 { now = 130 })).1
later_login db =
    followed (followed (followed untouched (claimed 1 50 refl)) (waited 130 refl))
      (logged_in (codes "M123040001") refl)

done_there : read_job_status 1 (table (job_in done ∷ [])) ≡ some done
unfolding read_job_status read_job
done_there = refl

queued_there : read_job_status 1 (table (job_in queued ∷ [])) ≡ some queued
unfolding read_job_status read_job
queued_there = refl

abbrev after_login : Db → Db
after_login db =
    (record_successful_login (codes "M123040001") (record (claim_job 1 50 db).1 { now = 130 })).1

Reach-final_example : read_job_status 1 (after_login (table (job_in done ∷ []))) ≡ some done
Reach-final_example = Reach-final 1 done refl (later_login (table (job_in done ∷ []))) done_there

Reach-status_example :
    (t : JobStatus) × (read_job_status 1 (after_login (table (job_in queued ∷ []))) ≡ some t)
    × (may_follow queued t ≡ true)
Reach-status_example = Reach-status 1 queued (later_login (table (job_in queued ∷ []))) queued_there

queued-IsUnique : IsUnique (table (job_in queued ∷ [])).jobs
queued-IsUnique = (λ h. refl, tt)

Reach-IsUnique_example : IsUnique (after_login (table (job_in queued ∷ []))).jobs
Reach-IsUnique_example = Reach-IsUnique (later_login (table (job_in queued ∷ []))) queued-IsUnique

-- The second attempt is answered.
abbrev second : ℕ → Option ℕ
second zero = none
second (suc k) = some k

transport_call_lem_example : IsAnswered second ⊎ IsExhausted second
transport_call_lem_example = transport_call_lem second

-- The course is in the list under its short number; the long code differs.
abbrev gym_item : SelectionItem
gym_item = record {
  code = some (codes "11510123");
  course_no = some (codes "GEAE2331");
  state = codes "選上";
  dept = [];
  name = codes "體育";
  credit = some 1;
  compulsory_elective = [];
  teacher = [];
  room_text = [];
  points_priority = none;
  stage = [];
  year_semest_note = [];
  times = none;
  room = none;
  unknown = true;
  course_id = none;
  url = none;
}

abbrev unknown_update : OutcomeUpdate
unknown_update = record { audit = 1; outcome = unknown_reconciled; school_msg = none }

reconcile_updates_lem_example :
    (more : List OutcomeUpdate) × (reconcile_updates
        (unknown_update ∷ [])
        (add_gym ∷ [])
        (gym_item ∷ [])
      ≡ some more)
    × AreReconciled (gym_item ∷ []) (add_gym ∷ []) (unknown_update ∷ []) more
reconcile_updates_lem_example =
    reconcile_updates_lem (unknown_update ∷ []) (add_gym ∷ []) (gym_item ∷ []) refl

other_code : text_eq (codes "11510123") (codes "GEAE2331") ≡ false
unfolding text_eq
other_code = refl

other_code_unseen_example :
    (reconcile_one (gym_item ∷ []) unknown_update add_gym).outcome ≡ rejected
other_code_unseen_example =
    other_code_unseen (gym_item ∷ []) add_gym unknown_update (other_code, tt) refl

-- A worker whose school never answers, and no transaction in between.
abbrev worker : Worker ℕ
worker = record {
  cutoff = 50;
  sink_up = true;
  load_selcrs = λ session. some 1;
  load_selcrs_again = λ session. some 1;
  get_write_form = λ jar url attempt. none;
  post_write = λ jar url payload referer attempt. none;
  get_slt_result = λ jar. items_refused;
  meanwhile = λ moment db. db;
  html = record { inputs = λ page. []; form_actions = λ page. [] };
  tables = record { is_word = λ c. true; nfkc = λ t. t };
  url_join = λ base url. some url;
  sha256_hex = λ t. t;
  audit_stuid_hash = λ t. t;
}

abbrev ticket : QueueTicket
ticket = record {
  job_id = 1;
  session_ref = codes "s";
  student_no = codes "M123040001";
  canonical_ops = canonical_segments (add_gym ∷ []);
  variant = codes "ssform";
  form_url = codes "ssform.asp";
}

gym-IsWritable : All IsWritable (add_gym ∷ [])
unfolding contains
gym-IsWritable =
    (record { fits = refl; natural = refl; named = refl; no_colon = refl; no_bar = refl }, tt)

gym_parsed : parse_canonical_segments ticket.canonical_ops ≡ some (add_gym ∷ [])
gym_parsed = parse-canonical_segments (add_gym ∷ []) (λ h. cc) gym-IsWritable

gym_claimed :
    (claim_job 1 50 (table (job_in queued ∷ []))).0
    ≡ some (record (job_in queued) { status = running; started_at = some 120 })
unfolding claim_job
gym_claimed = refl

execute_ticket_claimed_example :
    Ran worker ticket (execute_ticket worker ticket (table (job_in queued ∷ [])))
execute_ticket_claimed_example =
    execute_ticket_claimed worker ticket (add_gym ∷ [])
      (record (job_in queued) { status = running; started_at = some 120 })
      (table (job_in queued ∷ [])) gym_parsed gym_claimed

nothing_claimed : (claim_job 1 50 (table [])).0 ≡ none
unfolding claim_job
nothing_claimed = refl

execute_ticket-IsSilent_example :
    IsSilent worker ticket (table []) (execute_ticket worker ticket (table []))
execute_ticket-IsSilent_example =
    execute_ticket-IsSilent worker ticket (table []) (inr (inl nothing_claimed))

-- A reply with one row and its verdict.
abbrev tables : Tables
tables = record { is_word = λ c. false; nfkc = λ t. t }

abbrev reply : Text
reply = codes "<tr><td>GEAE2331</td><td>加選成功</td></tr>"

reply_success : (code_verdict tables reply (codes "GEAE2331")).outcome ≡ success
unfolding code_verdict failure_section fragment_for_code page_verdict classify_fragment fold_text
    clean_cell_text has_marker row_bodies strip_tags strip_left strip_right occurs from_first
    after_prefix after_prefix_ci to_bracket
reply_success = refl

code_verdict-success_example :
    (failure_section tables reply ≡ none)
    × (fragment : Text) × (fragment_for_code reply (codes "GEAE2331") ≡ some fragment)
    × (has_marker success_markers (fold_text tables (clean_cell_text fragment)) ≡ true)
    × (has_marker failure_markers (fold_text tables (clean_cell_text fragment)) ≡ false)
code_verdict-success_example = code_verdict-success tables reply (codes "GEAE2331") reply_success

abbrev running_table : Db
running_table = table (job_in running ∷ [])

execute_claimed-Settles_example :
    Settles worker ticket
      (1 ∷ [])
      (execute_claimed worker ticket (add_gym ∷ []) (1 ∷ []) running_table)
execute_claimed-Settles_example =
    execute_claimed-Settles worker ticket (add_gym ∷ []) (1 ∷ []) running_table refl

-- A school that answers the third request.
abbrev third : ℕ → Option ℕ
third zero = none
third (suc zero) = none
third (suc (suc k)) = some k

request_with_backoff_lem_example : IsTried third backoff_seconds 0 (request_with_backoff third)
request_with_backoff_lem_example = request_with_backoff_lem third

abbrev owners : Db
owners = record (table (job_in queued ∷ [])) {
  students = record { id = 7; student_no = codes "M1" } ∷ [];
}

abbrev number_of : Text → Option ℕ
number_of t = some 1

owner_found : find_student_id (codes "M1") owners ≡ some 7
unfolding find_student_id text_eq
owner_found = refl

get_write_job-IsOwnView_example :
    IsOwnView 1 7 owners (get_write_job number_of (codes "1") (codes "M1") owners)
get_write_job-IsOwnView_example =
    get_write_job-IsOwnView number_of (codes "1") (codes "M1") owners 1 7 refl owner_found
