-- ===== src/Write/Lifecycle/Kept.antt =====
-- What a run of backend/app/write/audit_lifecycle.py leaves of the audit rows.
use nsysu_crs.Common.{
  ℕ, ◌-◌, ◌*◌, ◌≤◌, Text, text_eq, text_eq_refl, ◌≡◌, refl, ap, ◌⊎◌, inl, inr, Bool, true, false,
  not, none, some, List, [], ◌∷◌, ◌++◌, map, any, keep, ltb, ◌==◌, arith, Bool-cases, Option-cases,
}
use nsysu_crs.Write.Lifecycle.{
  AuditRow, RedactedRow, ArchiveMeta, LifecycleStore, redacted_row, hot_rows, is_hot_expired,
  has_id_of, archive_rows, write_archive, put_file, is_expired_meta, expired_metas, delete_archives,
  is_empty_rows, with_note, day_seconds, run_lifecycle,
}

abbrev pub Has : {A : Type 0} → A → List A → Type 0
Has x [] = ⊥
Has x (y ∷ ys) = (x ≡ y) ⊎ Has x ys

Has-map : {A B : Type 0} (f : A → B) (x : A) (ys : List A) → Has x ys → Has (f x) (map f ys)
Has-map f x [] h = absurd h
Has-map f x (y ∷ ys) (inl e) = inl (ap f e)
Has-map f x (y ∷ ys) (inr h) = inr (Has-map f x ys h)

Has-keep :
    {A : Type 0} (test : A → Bool) (x : A) (ys : List A)
    → test x ≡ true
    → Has x ys
    → Has x (keep test ys)
Has-keep test x [] e h = absurd h
Has-keep test x (y ∷ ys) e (inl f) = let g : test y ≡ true = rw (← f) e in rw g (inl f)
Has-keep test x (y ∷ ys) e (inr h) = elim (Bool-cases (test y)) [
  | inl f ↦ rw f (inr (Has-keep test x ys e h))
  | inr f ↦ rw f (Has-keep test x ys e h)
]

any-keep :
    {A : Type 0} (p test : A → Bool) (xs : List A) → any p xs ≡ false → any p (keep test xs) ≡ false
any-keep p test [] h = refl
any-keep p test (x ∷ xs) h = ground (arith, any-keep p test xs)

-- No two rows have one identifier.
abbrev pub AreKeyed : List AuditRow → Type 0
AreKeyed [] = Unit
AreKeyed (row ∷ rows) = (any (λ (r : AuditRow). row.id == r.id) rows ≡ false) × AreKeyed rows

other_id :
    (a row : AuditRow) (rows : List AuditRow)
    → any (λ (r : AuditRow). a.id == r.id) rows ≡ false
    → Has row rows
    → (row.id == a.id) ≡ false
other_id a row [] h k = absurd k
other_id a row (r ∷ rows) h (inl e) = rw e (ground arith)
other_id a row (r ∷ rows) h (inr k) = other_id a row rows (ground arith) k

-- A row that does not pass has no identifier of those that do.
unmatched :
    (test : AuditRow → Bool) (row : AuditRow) (rows : List AuditRow)
    → AreKeyed rows
    → Has row rows
    → test row ≡ false
    → has_id_of (keep test rows) row ≡ false
unmatched test row [] d h f = absurd h
unmatched test row (a ∷ rows) d (inl e) f =
    let g : test a ≡ false = rw (← e) f in
    rw (g, e) (any-keep (λ (r : AuditRow). a.id == r.id) test rows d.0)
unmatched test row (a ∷ rows) d (inr h) f = elim (Bool-cases (test a)) [
  | inr g ↦ rw g (unmatched test row rows d.1 h f)
  | inl g ↦ rw (g, other_id a row rows d.0 h) (unmatched test row rows d.1 h f)
]

-- Where a row is after the run: in the table, or redacted in the file of the path.
abbrev pub IsKept : Text → AuditRow → LifecycleStore → Type 0
IsKept path row s =
    Has row s.audits
    ⊎ ((lines : List RedactedRow) × (s.files path ≡ some lines) × Has (redacted_row row) lines)

archive_rows-IsKept :
    (older_than : ℕ) (path : Text) (row : AuditRow) (s : LifecycleStore)
    → AreKeyed s.audits
    → Has row s.audits
    → IsKept path row (archive_rows (hot_rows older_than s) path s)
unfolding archive_rows write_archive hot_rows
archive_rows-IsKept older_than path row s d h = elim (Bool-cases (is_hot_expired older_than row)) [
  | inl e ↦ inr (
    map redacted_row (keep (is_hot_expired older_than) s.audits),
    rw (text_eq_refl path) refl,
    Has-map redacted_row row (keep (is_hot_expired older_than) s.audits)
        (Has-keep (is_hot_expired older_than) row s.audits e h),
  )
  | inr e ↦ inl (
      Has-keep (λ r. not (has_id_of (keep (is_hot_expired older_than) s.audits) r)) row s.audits
        (rw (unmatched (is_hot_expired older_than) row s.audits d h e) refl) h)
]

-- The deletion of other files.
abbrev names_path : Text → ArchiveMeta → Bool
names_path path meta = text_eq path meta.path

delete_archives-IsKept :
    (path : Text) (row : AuditRow) (metas : List ArchiveMeta) (s : LifecycleStore)
    → any (names_path path) metas ≡ false
    → IsKept path row s
    → IsKept path row (delete_archives metas s).1
unfolding delete_archives
delete_archives-IsKept path row [] s e k = k
delete_archives-IsKept path row (meta ∷ metas) s e k = elim (Option-cases (s.files meta.path)) [
  | inl f ↦
      rw (f, delete_archives)
        (delete_archives-IsKept path row metas (record s { metas = with_note meta.id s.metas })
          (ground arith) k)
  | inr (content, f) ↦
      let other : text_eq path meta.path ≡ false = ground arith in
      let gone = put_file meta.path none s in
      let still : IsKept path row (record gone { metas = with_note meta.id s.metas }) = elim k [
        | inl h ↦ inl h
        | inr (lines, g, h) ↦ inr (lines, rw other g, h)
      ] in
      rw (f, delete_archives)
        (delete_archives-IsKept path row metas (record gone { metas = with_note meta.id s.metas })
          (ground arith) still)
]

recent :
    (cutoff : ℕ) (path : Text) (metas : List ArchiveMeta) (new : ArchiveMeta)
    → is_expired_meta cutoff new ≡ false
    → any (names_path path) metas ≡ false
    → any (names_path path) (keep (is_expired_meta cutoff) (metas ++ (new ∷ []))) ≡ false
recent cutoff path [] new f e = rw f refl
recent cutoff path (m ∷ metas) new f e = ground (arith, recent cutoff path metas new f)

-- The archive that was just written is not expired.
not_expired :
    (older_than cutoff : ℕ) (path : Text) (s : LifecycleStore)
    → cutoff ≤ s.now
    → any (names_path path) s.metas ≡ false
    → any (names_path path) (expired_metas cutoff (archive_rows (hot_rows older_than s) path s))
      ≡ false
unfolding expired_metas archive_rows write_archive
not_expired older_than cutoff path s n e =
    let now : ltb s.now cutoff ≡ false = ground arith in
    recent cutoff path s.metas _ (rw now refl) e

unexpired :
    (cutoff : ℕ) (path : Text) (s : LifecycleStore)
    → any (names_path path) s.metas ≡ false
    → any (names_path path) (expired_metas cutoff s) ≡ false
unfolding expired_metas
unexpired cutoff path s e = any-keep (names_path path) (is_expired_meta cutoff) s.metas e

-- No audit row is lost: after a run, dry or not, each row is in the table still, or stands redacted in
-- the file of the run. The rows have identifiers of their own, no earlier archive has the path of the
-- new one, and the clock of the database has passed the cutoff of the archives.
pub run_lifecycle-IsKept :
    (path : Text) (hot_days archive_days : ℕ) (dry_run : Bool) (moment : ℕ) (s : LifecycleStore)
    (row : AuditRow)
    → AreKeyed s.audits
    → Has row s.audits
    → any (λ (meta : ArchiveMeta). text_eq path meta.path) s.metas ≡ false
    → moment - archive_days * day_seconds ≤ s.now
    → IsKept path row (run_lifecycle path hot_days archive_days dry_run moment s).1
unfolding run_lifecycle
run_lifecycle-IsKept path hot_days archive_days true moment s row d h e n =
    elim (Bool-cases (is_empty_rows (hot_rows (moment - hot_days * day_seconds) s))) [
      | inl f ↦ rw (f, run_lifecycle) (inl h)
      | inr f ↦ rw (f, run_lifecycle) (inl h)
    ]
run_lifecycle-IsKept path hot_days archive_days false moment s row d h e n =
    let hot = moment - hot_days * day_seconds in
    let cutoff = moment - archive_days * day_seconds in
    elim (Bool-cases (is_empty_rows (hot_rows hot s))) [
      | inl f ↦
          rw (f, run_lifecycle)
            (delete_archives-IsKept path row (expired_metas cutoff s) s (unexpired cutoff path s e)
              (inl h))
      | inr f ↦
          let s1 = archive_rows (hot_rows hot s) path s in
          rw (f, run_lifecycle)
            (delete_archives-IsKept path row (expired_metas cutoff s1) s1
              (not_expired hot cutoff path s n e) (archive_rows-IsKept hot path row s d h))
    ]
