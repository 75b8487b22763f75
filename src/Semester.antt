-- ===== src/Semester.antt =====
-- backend/app/semester.py: the code of the current semester. The discovery from the school's page is a
-- parameter, `none` is its error.
use nsysu_crs.Common.{ℕ, Text, codes, false, Option, none, some, [], ◌∷◌}
use nsysu_crs.Auth.Redis.{FakeRedis, get, set}

abbrev pub semester_cache_key : Text
semester_cache_key = codes "semester:current"

abbrev pub semester_cache_ttl_seconds : ℕ
semester_cache_ttl_seconds = 21600

abbrev discovered : Option Text → FakeRedis → Option Text × FakeRedis
discovered none r = (none, r)
discovered (some d0) r =
    (some d0, (set semester_cache_key d0 false (some semester_cache_ttl_seconds) r).1)

abbrev cached : Option Text → Option Text → FakeRedis → Option Text × FakeRedis
cached (some code) discover r = (some code, r)
cached none discover r = discovered discover r

-- `semester_year_sem` is the setting; an empty one is none.
unfoldable pub resolve_year_sem : Text → Option Text → FakeRedis → Option Text × FakeRedis
resolve_year_sem [] discover r = cached (get semester_cache_key r) discover r
resolve_year_sem (c ∷ semester_year_sem) discover r = (some (c ∷ semester_year_sem), r)
