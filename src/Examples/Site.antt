-- ===== src/Examples/Site.antt =====
-- A site with one course, whose student has a jar, and encodings of its records.
use nsysu_crs.Common.{ℕ, zero, suc, Text, codes, ◌≡◌, refl, false, none, some, [], ◌∷◌, pos}
use nsysu_crs.Auth.Redis.{FakeRedis}
use nsysu_crs.Auth.Sessions.{store_selcrs}
use nsysu_crs.Auth.Tokens.{ConfirmRecord, RecordJson}
use nsysu_crs.Catalog.{CatalogRow}
use nsysu_crs.Write.Canonical.{add}
use nsysu_crs.Write.Engine.{QueueTicket}
use nsysu_crs.Write.Queue.{TicketJson}
use nsysu_crs.Write.Request.{OpIn}
use nsysu_crs.Write.Api.{Outside}

-- Texts in a row, each behind its end.
abbrev ended : Text → Text → Text
ended [] more = 0 ∷ more
ended (c ∷ t) more = suc c ∷ ended t more

unfoldable pub begun : Text → Text × Text
begun [] = ([], [])
begun (zero ∷ t) = ([], t)
begun (suc c ∷ t) = let (a, more) = begun t in (c ∷ a, more)

begun-ended : (t more : Text) → begun (ended t more) ≡ (t, more)
unfolding begun
begun-ended [] more = refl
begun-ended (c ∷ t) more = rw (begun-ended t more) refl

abbrev pub record_json : RecordJson
record_json = record {
  dump = λ (e : ConfirmRecord).
      ended e.student_no (ended e.canonical_ops (ended e.variant (ended e.form_url [])));
  validate = λ t.
      let (a, t1) = begun t in
      let (b, t2) = begun t1 in
      let (c, t3) = begun t2 in
      some (record { student_no = a; canonical_ops = b; variant = c; form_url = (begun t3).0 });
}

pub record_read : (e : ConfirmRecord) → record_json.validate (record_json.dump e) ≡ some e
record_read e =
    rw
      (
        begun-ended e.student_no (ended e.canonical_ops (ended e.variant (ended e.form_url []))),
        begun-ended e.canonical_ops (ended e.variant (ended e.form_url [])),
        begun-ended e.variant (ended e.form_url []),
        begun-ended e.form_url [],
      )
      refl

abbrev pub ticket_json : TicketJson
ticket_json = record {
  dump = λ (t : QueueTicket).
      t.job_id
      ∷ ended t.session_ref
          (ended t.student_no (ended t.canonical_ops (ended t.variant (ended t.form_url []))));
  validate = λ payload. elim payload [
    | [] ↦ none
    | id ∷ t0 ↦
        let (a, t1) = begun t0 in
        let (b, t2) = begun t1 in
        let (c, t3) = begun t2 in
        let (d, t4) = begun t3 in
        some (record {
          job_id = id;
          session_ref = a;
          student_no = b;
          canonical_ops = c;
          variant = d;
          form_url = (begun t4).0;
        })
  ];
}

pub ticket_read : (t : QueueTicket) → ticket_json.validate (ticket_json.dump t) ≡ some t
ticket_read t =
    rw
      (
        begun-ended t.session_ref
            (ended t.student_no (ended t.canonical_ops (ended t.variant (ended t.form_url [])))),
        begun-ended t.student_no (ended t.canonical_ops (ended t.variant (ended t.form_url []))),
        begun-ended t.canonical_ops (ended t.variant (ended t.form_url [])),
        begun-ended t.variant (ended t.form_url []),
        begun-ended t.form_url [],
      )
      refl

abbrev pub number : Text
number = codes "M123040001"

-- The page of the open stage has one link, and the form has no fields of its own.
abbrev pub out : Outside ℕ
out = record {
  school = record {
    studfun = record {
      hrefs = λ page. codes "ssform.asp" ∷ [];
      anchor_texts = λ page. [];
      visible = λ page. page;
      url_path = λ href. href;
      params_from = λ href. 0;
    };
    get_studfun = λ jar. some (codes "add");
    get_write_form = λ jar url. some (codes "form");
    studfun_join = λ href. href;
  };
  params_items = λ n. [];
  html = record { inputs = λ page. []; form_actions = λ page. [] };
  names = record { uuid_of = λ t. none; uuid_text = λ id. id ∷ []; isoformat = λ n. n ∷ [] };
  records = record_json;
  snapshots = record { dump = λ s. []; validate = λ t. none };
  sha256_hex = λ t. t;
  sha256_b64 = λ t. t;
  discover = none;
  breaker = record { failure_threshold = 3; recovery_after = 120 };
  nonce = codes "n";
  sliding_ttl = 1200;
  confirm_token_ttl = 600;
  semester_year_sem = codes "1151";
  first_round_write = false;
  app_secret = codes "secret";
}

abbrev pub gym_row : CatalogRow
gym_row = record {
  year_sem = codes "1151";
  code = some (codes "GEAE2331");
  dept = none;
  grade = none;
  class_ = none;
  name_zh = none;
  name_en = none;
  credit = some (pos 1);
  compulsory = false;
  restrict = none;
  select_n = none;
  selected_n = none;
  remaining = some (pos 3);
  teacher = none;
  room = none;
  class_time = [];
  description = none;
  tags = [];
  english = false;
  change = none;
  change_desc = none;
  url = none;
}

abbrev pub gym_in : OpIn
gym_in = record {
  action = add;
  course_id = codes "GEAE2331";
  priority = some (pos 3);
  drop_confirm_text = none;
}

abbrev pub empty : FakeRedis
empty = record { now = 1000; values = λ name. none; zsets = λ name. []; lists = λ name. [] }

abbrev pub logged_on : FakeRedis
logged_on = store_selcrs (codes "s") (codes "jar") 1200 28800 empty
