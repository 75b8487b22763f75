-- ===== src/Catalog/Schedule.antt =====
-- backend/app/catalog/schedule.py: the days of the peak cadence, and one tick of the scheduler under the
-- lock. The ISO dates and the cron library are parameters.
pub mod Ticks
use nsysu_crs.Common.{
  ℕ, ◌-◌, ◌*◌, Text, codes, Bool, true, false, ◌&&◌, Option, none, some, List, [], ◌∷◌, any, leb,
  ltb, if◌then◌else◌,
}
use nsysu_crs.Common.Search.{after_prefix}
use nsysu_crs.Common.Split.{split_on}
use nsysu_crs.Auth.Redis.{FakeRedis}
use nsysu_crs.Auth.Tokens.{acquire, release}
use nsysu_crs.Write.Timetable.{strip}

-- `chunk.partition("..")`: what stands before the first separator, and behind it if it is there.
unfoldable pub partition_dots : Text → Text × Option Text
partition_dots [] = ([], none)
partition_dots (c ∷ t) =
    let (before, after) = partition_dots t in
    elim (after_prefix (codes "..") (c ∷ t)) [
      | some more ↦ ([], some more)
      | none ↦ (c ∷ before, after)
    ]

-- `date.fromisoformat` to the ordinal number; `none` is the ValueError.
module _ (date_of : Text → Option ℕ) where
  abbrev end_of : ℕ → Option Text → Option ℕ
  end_of start none = some start
  end_of start (some end_text) = date_of (strip end_text)

  -- One chunk that is not blank.
  unfoldable pub parse_range : Text → Option (ℕ × ℕ)
  parse_range chunk =
      let (start_text, end_text) = partition_dots chunk in
      elim (date_of (strip start_text)) [
        | none ↦ none
        | some start ↦ elim (end_of start end_text) [
          | none ↦ none
          | some end ↦ if ltb end start then none else some (start, end)
        ]
      ]

  unfoldable pub parse_chunks : List Text → Option (List (ℕ × ℕ))
  parse_chunks [] = some []
  parse_chunks (piece ∷ pieces) =
      let later = parse_chunks pieces in
      elim (strip piece) [
        | [] ↦ later
        | c ∷ chunk ↦ elim (parse_range (c ∷ chunk)) [
          | none ↦ none
          | some range ↦ elim later [ none ↦ none | some more ↦ some (range ∷ more) ]
        ]
      ]

  unfoldable pub parse_peak_date_ranges : Text → Option (List (ℕ × ℕ))
  parse_peak_date_ranges spec = parse_chunks (split_on b',' spec)

unfoldable pub is_peak_day : ℕ → List (ℕ × ℕ) → Bool
is_peak_day day ranges = any (λ r. leb r.0 day && leb day r.1) ranges

-- The fires of an expression are a parameter: the first one after a moment.
unfoldable pub interval_seconds : (ℕ → ℕ) → ℕ → ℕ
interval_seconds next_after moment =
    let first = next_after moment in
    let seconds = next_after first - first in if ltb seconds 1 then 1 else seconds

-- What the scheduler is set up with, and what one tick finds: the clock, the day, the token.
pub record Scheduler : Type 0 where
  pub lock_name : Text
  pub min_ttl : ℕ
  pub peak_ranges : List (ℕ × ℕ)
  pub next_peak : ℕ → ℕ
  pub next_offpeak : ℕ → ℕ
  pub day_of : ℕ → ℕ

pub record Tick : Type 0 where
  pub wake : ℕ
  pub ttl : ℕ

-- The wait and the lock's time of a tick.
unfoldable pub plan_tick : Scheduler → ℕ → Tick
plan_tick s moment =
    let next_after =
      if is_peak_day (s.day_of moment) s.peak_ranges then s.next_peak else s.next_offpeak in
    record { wake = next_after moment; ttl = 2 * interval_seconds next_after moment }

-- The tick after its wait: the run happens between the lock and its release, and changes the store as
-- `run_once` says. Whether it ran, and the store.
unfoldable pub scheduler_tick :
    Scheduler → Text → Tick → (FakeRedis → FakeRedis) → FakeRedis → Bool × FakeRedis
scheduler_tick s token tick run_once r =
    let (taken, r1) = acquire s.lock_name s.min_ttl token tick.ttl r in
    elim taken [
      | none ↦ (false, r1)
      | some t ↦ (true, (release s.lock_name s.min_ttl t (run_once r1)).1)
    ]
