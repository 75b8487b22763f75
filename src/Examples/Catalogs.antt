-- ===== src/Examples/Catalogs.antt =====
-- The tables of the catalog, a tick of its scheduler, and the check of a request.
use nsysu_crs.Auth.Redis.{FakeRedis, set}
use nsysu_crs.Catalog.Schedule.{Scheduler, plan_tick, scheduler_tick}
use nsysu_crs.Catalog.Schedule.Ticks.{IsCoalesced, HasRun, scheduler_tick_lem}
use nsysu_crs.Common.{
  ◌⊎◌, ◌+◌, false, none, arith, Text, codes, text_eq, ◌≡◌, refl, true, List, [], ◌∷◌, ◌≤◌, ◌↔◌,
  length,
}
use nsysu_crs.Catalog.{row_payload}
use nsysu_crs.Write.Request.{validate_ops}
use nsysu_crs.Catalog.Persist.{CatalogDb, replace_year_sem_snapshot}
use nsysu_crs.Catalog.Persist.Objects.{IsDistinct}
use nsysu_crs.Catalog.Persist.Snapshot.{
  snapshot, elsewhere, IsReplaced, replace_year_sem_snapshot_lem,
}
use nsysu_crs.Write.Request.Bounds.{AreFitting, AreDistinct, priorities, validate_ops-passes_iff}
use nsysu_crs.Examples.Site.{empty, gym_row, gym_in}

validate_ops-passes_iff_example : (validate_ops 15 (gym_in ∷ []) ≡ none) ↔ (
    AreFitting (gym_in ∷ []) × AreDistinct (priorities (gym_in ∷ [])) × (length (gym_in ∷ []) ≤ 15))
validate_ops-passes_iff_example = validate_ops-passes_iff 15 (gym_in ∷ [])

-- A catalog with an older course of the semester.
abbrev catalog : CatalogDb
catalog = record {
  courses = row_payload 5 900 gym_row ∷ [];
  runs = [];
  next_course = 6;
  next_run = 1;
  now = 1100;
}

one_semester : text_eq gym_row.year_sem (codes "1151") ≡ true
unfolding text_eq
one_semester = refl

IsDistinct-before : IsDistinct (snapshot (codes "1151") catalog)
unfolding row_payload text_eq
IsDistinct-before = (refl, tt)

replace_year_sem_snapshot_lem_example :
    (elsewhere (codes "1151") (replace_year_sem_snapshot (codes "1151") (gym_row ∷ []) catalog).1
      ≡ elsewhere (codes "1151") catalog)
    × IsDistinct (
        snapshot (codes "1151") (replace_year_sem_snapshot (codes "1151") (gym_row ∷ []) catalog).1)
    × ((i : List Text)
        → IsReplaced
            (gym_row ∷ [])
            catalog
            (replace_year_sem_snapshot (codes "1151") (gym_row ∷ []) catalog).1
            (codes "1151")
            i)
replace_year_sem_snapshot_lem_example =
    replace_year_sem_snapshot_lem (codes "1151") (gym_row ∷ []) catalog IsDistinct-before
      (one_semester, tt)

-- A cron that fires every ten minutes, on a day that is no peak day.
abbrev scheduler : Scheduler
scheduler = record {
  lock_name = codes "ingest:lock";
  min_ttl = 60;
  peak_ranges = [];
  next_peak = λ moment. moment + 300;
  next_offpeak = λ moment. moment + 600;
  day_of = λ moment. 0;
}

abbrev run_once : FakeRedis → FakeRedis
run_once r = (set (codes "last") (codes "run") false none r).1

scheduler_tick_lem_example :
    IsCoalesced
      (codes "ingest:lock")
      empty
      (scheduler_tick scheduler (codes "a") (plan_tick scheduler 400) run_once empty)
    ⊎ HasRun scheduler
        (codes "a")
        (plan_tick scheduler 400)
        run_once
        empty
        (scheduler_tick scheduler (codes "a") (plan_tick scheduler 400) run_once empty)
scheduler_tick_lem_example =
    scheduler_tick_lem scheduler (codes "a") (plan_tick scheduler 400) run_once empty (omega arith)
