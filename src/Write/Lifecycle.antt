-- ===== src/Write/Lifecycle.antt =====
-- backend/app/write/audit_lifecycle.py: the audit rows that have become old go to an archive file, and
-- the files that have become old are deleted. The file system is a function from paths.
pub mod Kept
use nsysu_crs.Common.{
  ℕ, ◌+◌, ◌-◌, ◌*◌, Text, codes, text_eq, Bool, true, false, not, ◌&&◌, Option, none, some, List,
  [], ◌∷◌, ◌++◌, map, any, keep, length, take, ltb, ◌==◌, if◌then◌else◌, String,
}
use nsysu_crs.Write.Canonical.{Action}
use nsysu_crs.Write.Jobs.{Outcome}

-- WriteAudit, with the column that this module reads.
pub record AuditRow : Type 0 where
  pub id : ℕ
  pub job_id : ℕ
  pub course_id : Text
  pub action : Action
  pub outcome : Outcome
  pub school_msg : Option Text
  pub payload_hash : Text
  pub stuid_hash : Text
  pub created_at : ℕ
  pub archived_at : Option ℕ

-- A line of the archive.
pub record RedactedRow : Type 0 where
  pub id : ℕ
  pub job_id : ℕ
  pub course_id : Text
  pub action : Action
  pub outcome : Outcome
  pub school_msg_excerpt : Text
  pub payload_hash : Text
  pub stuid_hash : Text
  pub created_at : ℕ
  pub archived_at : Option ℕ

-- WriteAuditArchiveMeta of models/write.py; the rows that this module adds have a count and a note.
pub record ArchiveMeta : Type 0 where
  pub id : ℕ
  pub archived_at : ℕ
  pub rows : ℕ
  pub path : Text
  pub note : Text

abbrev pub archive_msg_excerpt : ℕ
archive_msg_excerpt = 80

abbrev pub deleted_note : Text
deleted_note = codes "deleted_after_1y"

abbrev or_empty : Option Text → Text
or_empty none = []
or_empty (some t) = t

unfoldable pub redacted_row : AuditRow → RedactedRow
redacted_row row = record {
  id = row.id;
  job_id = row.job_id;
  course_id = row.course_id;
  action = row.action;
  outcome = row.outcome;
  school_msg_excerpt = take archive_msg_excerpt (or_empty row.school_msg);
  payload_hash = row.payload_hash;
  stuid_hash = row.stuid_hash;
  created_at = row.created_at;
  archived_at = row.archived_at;
}

pub record LifecycleStore : Type 0 where
  pub audits : List AuditRow
  pub metas : List ArchiveMeta
  pub files : Text → Option (List RedactedRow)
  pub next_meta : ℕ
  pub now : ℕ

abbrev pub put_file : Text → Option (List RedactedRow) → LifecycleStore → LifecycleStore
put_file path content s = record s {
  files = λ other. if text_eq other path then content else s.files other;
}

-- `_write_archive`; the path with its stamp and `uuid4` is an argument.
unfoldable pub write_archive : List AuditRow → Text → LifecycleStore → LifecycleStore
write_archive rows path s = put_file path (some (map redacted_row rows)) s

abbrev is_unset : Option ℕ → Bool
is_unset none = true
is_unset (some n) = false

abbrev pub is_hot_expired : ℕ → AuditRow → Bool
is_hot_expired older_than row = is_unset row.archived_at && ltb row.created_at older_than

unfoldable pub hot_rows : ℕ → LifecycleStore → List AuditRow
hot_rows older_than s = keep (is_hot_expired older_than) s.audits

abbrev pub is_expired_meta : ℕ → ArchiveMeta → Bool
is_expired_meta older_than meta =
    ltb meta.archived_at older_than && not (text_eq meta.note deleted_note)

unfoldable pub expired_metas : ℕ → LifecycleStore → List ArchiveMeta
expired_metas older_than s = keep (is_expired_meta older_than) s.metas

abbrev pub has_id_of : List AuditRow → AuditRow → Bool
has_id_of rows row = any (λ (r : AuditRow). row.id == r.id) rows

-- The file, then the ledger row, then the deletion of the rows by their identifiers.
unfoldable pub archive_rows : List AuditRow → Text → LifecycleStore → LifecycleStore
archive_rows rows path s =
    let s' = write_archive rows path s in
    record s' {
      metas =
          s'.metas
          ++ (record {
            id = s'.next_meta;
            archived_at = s'.now;
            rows = length rows;
            path = path;
            note = codes "hot_90d";
          }
              ∷ []);
      next_meta = s'.next_meta + 1;
      audits = keep (λ row. not (has_id_of rows row)) s'.audits;
    }

abbrev pub with_note : ℕ → List ArchiveMeta → List ArchiveMeta
with_note id [] = []
with_note id (meta ∷ metas) =
    (if meta.id == id then record meta { note = deleted_note } else meta) ∷ with_note id metas

-- The loop over the expired archives, and how many files it deleted.
unfoldable pub delete_archives : List ArchiveMeta → LifecycleStore → ℕ × LifecycleStore
delete_archives [] s = (0, s)
delete_archives (meta ∷ expired) s =
    let found = s.files meta.path in
    let gone : LifecycleStore = elim found [ none ↦ s | some lines ↦ put_file meta.path none s ] in
    let (deleted, s') =
      delete_archives expired (record gone { metas = with_note meta.id gone.metas }) in
    (elim found [ none ↦ deleted | some lines ↦ deleted + 1 ], s')

pub record LifecycleReport : Type 0 where
  pub dry_run : Bool
  pub hot_cutoff : ℕ
  pub hot_expired_rows : ℕ
  pub archive_path : Option Text
  pub archive_cutoff : ℕ
  pub archives_deleted : ℕ

abbrev pub day_seconds : ℕ
day_seconds = 86400

abbrev pub is_empty_rows : List AuditRow → Bool
is_empty_rows [] = true
is_empty_rows (r ∷ rows) = false

abbrev pub archived : Bool → List AuditRow → Text → LifecycleStore → Option Text × LifecycleStore
archived dry_run rows path s =
    if not (is_empty_rows rows) && not dry_run
    then (some path, archive_rows rows path s)
    else (none, s)

-- Seconds since the epoch, which are more than the retention times.
unfoldable pub run_lifecycle :
    Text → ℕ → ℕ → Bool → ℕ → LifecycleStore → LifecycleReport × LifecycleStore
run_lifecycle path hot_days archive_days dry_run moment s =
    let hot_cutoff = moment - hot_days * day_seconds in
    let archive_cutoff = moment - archive_days * day_seconds in
    let rows = hot_rows hot_cutoff s in
    let (archive_path, s1) = archived dry_run rows path s in
    let (deleted, s2) =
      if dry_run then (0, s1) else delete_archives (expired_metas archive_cutoff s1) s1 in
    (
      record {
        dry_run = dry_run;
        hot_cutoff = hot_cutoff;
        hot_expired_rows = length rows;
        archive_path = archive_path;
        archive_cutoff = archive_cutoff;
        archives_deleted = deleted;
      },
      s2,
    )
