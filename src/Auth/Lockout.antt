-- ===== src/Auth/Lockout.antt =====
-- backend/app/auth/lockout.py: the log of failed logins with its lock, and the limit on an address.
pub mod Locks
use nsysu_crs.Common.{
  ℕ, ◌+◌, ◌/◌, ◌≤◌, ◌<◌, Text, codes, text_eq, text_eq_refl, ◌≡◌, refl, ap, ◌∙◌, Bool, true, false,
  Option, some, ◌∷◌, ◌++◌, leb, if◌then◌else◌, arith, inl, inr, Bool-cases,
}
use nsysu_crs.Common.Decimal.{decimal}
use nsysu_crs.Auth.Redis.{
  FakeRedis, entry, set, incr, expire, zadd, zremrangebyscore, zcard, is_there, write,
}

abbrev pub lockout_daily_ttl_seconds : ℕ
lockout_daily_ttl_seconds = 2592000

unfoldable pub lockout_total_key : Text
lockout_total_key = codes "lockout:events:total"

unfoldable pub fail_log_key : Text → Text
fail_log_key student_no = codes "loginfail:" ++ student_no

unfoldable pub lock_key : Text → Text
lock_key student_no = codes "loginlock:" ++ student_no

unfoldable pub ip_key : Text → ℕ → Text
ip_key ip hour_bucket = codes "loginip:" ++ (ip ++ (b':' ∷ decimal hour_bucket))

-- The name of the day in the zone of the deployment is a parameter.
unfoldable pub lockout_daily_key : (ℕ → Text) → ℕ → Text
lockout_daily_key day_of moment = codes "lockout:events:" ++ day_of moment

pub record FailureLog : Type 0 where
  pub fail_limit : ℕ
  pub window_seconds : ℕ
  pub day_of : ℕ → Text

module _ (log : FailureLog) where
  unfoldable pub is_locked : Text → FakeRedis → Bool
  is_locked student_no r = is_there (entry (lock_key student_no) r)

  unfoldable pub unexpired_failures : Text → FakeRedis → ℕ × FakeRedis
  unexpired_failures student_no r =
      let kept = zremrangebyscore (fail_log_key student_no) r.now r in
      (zcard (fail_log_key student_no) kept, kept)

  -- The failure is in the log; `nonce` is the `uuid4` of its entry.
  unfoldable pub logged : Text → Text → FakeRedis → FakeRedis
  logged nonce student_no r =
      let key = fail_log_key student_no in
      expire key log.window_seconds false
        (zadd key nonce (r.now + log.window_seconds) (zremrangebyscore key r.now r))

  -- The counters of a new lock.
  unfoldable pub count_lock : ℕ → FakeRedis → FakeRedis
  count_lock now r =
      let daily = lockout_daily_key log.day_of now in
      expire daily lockout_daily_ttl_seconds false (incr daily (incr lockout_total_key r).1).1

  unfoldable pub record_credential_fail : Text → Text → FakeRedis → Bool × FakeRedis
  record_credential_fail nonce student_no r =
      let appended = logged nonce student_no r in
      let (created, locked) =
        set (lock_key student_no) (codes "1") true (some log.window_seconds) appended in
      if leb log.fail_limit (zcard (fail_log_key student_no) appended)
      then (true, if created then count_lock r.now locked else locked)
      else (false, appended)

pub record IpLimiter : Type 0 where
  pub hourly_limit : ℕ

module _ (limiter : IpLimiter) where
  unfoldable pub hit : Text → FakeRedis → ℕ × FakeRedis
  hit ip r =
      let key = ip_key ip (r.now / 3600) in
      let (count, r') = incr key r in (count, expire key 3700 true r')

  unfoldable pub admits : ℕ → Bool
  admits count = leb count limiter.hourly_limit
