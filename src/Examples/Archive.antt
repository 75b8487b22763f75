-- ===== src/Examples/Archive.antt =====
-- The audit rows at a run of their life cycle.
use nsysu_crs.Common.{ℕ, codes, false, refl, inl, none, some, [], ◌∷◌, arith}
use nsysu_crs.Write.Canonical.{drop}
use nsysu_crs.Write.Jobs.{success}
use nsysu_crs.Write.Lifecycle.{AuditRow, LifecycleStore, run_lifecycle}
use nsysu_crs.Write.Lifecycle.Kept.{IsKept, run_lifecycle-IsKept}

abbrev row_at : ℕ → ℕ → AuditRow
row_at id created_at = record {
  id = id;
  job_id = 1;
  course_id = codes "C1";
  action = drop;
  outcome = success;
  school_msg = some (codes "ok");
  payload_hash = codes "p";
  stuid_hash = codes "s";
  created_at = created_at;
  archived_at = none;
}

abbrev old_and_new : LifecycleStore
old_and_new = record {
  audits = row_at 1 0 ∷ row_at 2 8000000 ∷ [];
  metas = [];
  files = λ path. none;
  next_meta = 1;
  now = 8640000;
}

run_lifecycle-IsKept_example :
    IsKept (codes "a") (row_at 1 0) (run_lifecycle (codes "a") 90 365 false 8640000 old_and_new).1
run_lifecycle-IsKept_example =
    run_lifecycle-IsKept (codes "a") 90 365 false 8640000 old_and_new (row_at 1 0)
      (refl, (refl, tt)) (inl refl) refl (omega arith)
