-- ===== src/Auth/Lockout/Locks.antt =====
-- The lock of backend/app/auth/lockout.py: when it is set, and that it is not extended.
use nsysu_crs.Common.{
  ℕ, ◌+◌, ◌≤◌, ◌<◌, Text, codes, text_eq, text_eq_refl, ◌≡◌, refl, ap, ◌∙◌, Bool, true, false,
  Option, some, leb, if◌then◌else◌, arith, inl, inr, Bool-cases,
}
use nsysu_crs.Auth.Redis.{
  FakeRedis, entry, set, incr, expire, zadd, zremrangebyscore, zcard, is_there, write,
}
use nsysu_crs.Auth.Lockout.{
  lockout_total_key, fail_log_key, lock_key, lockout_daily_key, FailureLog, is_locked, logged,
  count_lock, record_credential_fail,
}

module _ (log : FailureLog) where
  logged_keeps :
      (nonce student_no : Text) (r : FakeRedis)
      → (logged log nonce student_no r).values (lock_key student_no)
        ≡ r.values (lock_key student_no)
  unfolding logged expire zadd zremrangebyscore lock_key fail_log_key text_eq
  logged_keeps nonce student_no r = refl

  logged_now :
      (nonce student_no : Text) (r : FakeRedis) → (logged log nonce student_no r).now ≡ r.now
  unfolding logged expire zadd zremrangebyscore
  logged_now nonce student_no r = refl

  count_keeps :
      (student_no : Text) (now : ℕ) (r : FakeRedis)
      → (count_lock log now r).values (lock_key student_no) ≡ r.values (lock_key student_no)
  unfolding count_lock expire incr lockout_daily_key lockout_total_key lock_key text_eq
  count_keeps student_no now r = refl

  count_now : (now : ℕ) (r : FakeRedis) → (count_lock log now r).now ≡ r.now
  unfolding count_lock expire incr
  count_now now r = refl

  created_keeps :
      (created : Bool) (student_no : Text) (now : ℕ) (r : FakeRedis)
      → ((if created then count_lock log now r else r).values (lock_key student_no)
          ≡ r.values (lock_key student_no))
        × ((if created then count_lock log now r else r).now ≡ r.now)
  created_keeps true student_no now r = (count_keeps student_no now r, count_now now r)
  created_keeps false student_no now r = (refl, refl)

  set_held :
      (name value : Text) (ex : Option ℕ) (r : FakeRedis)
      → is_there (entry name r) ≡ true
      → set name value true ex r ≡ (false, r)
  unfolding set
  set_held name value ex r h = rw h refl

  set_free :
      (name value : Text) (seconds : ℕ) (r : FakeRedis)
      → is_there (entry name r) ≡ false
      → set name value true (some seconds) r ≡ (true, write name value (some seconds) r)
  unfolding set
  set_free name value seconds r h = rw h refl

  abbrev is_spent : Text → Text → FakeRedis → Bool
  is_spent nonce student_no r =
      leb log.fail_limit (zcard (fail_log_key student_no) (logged log nonce student_no r))

  abbrev attempt : Text → Text → FakeRedis → Bool × FakeRedis
  attempt nonce student_no r =
      set (lock_key student_no) (codes "1") true (some log.window_seconds)
        (logged log nonce student_no r)

  abbrev counted : FakeRedis → Bool × FakeRedis → FakeRedis
  counted r (created, locked) = if created then count_lock log r.now locked else locked

  spent :
      (nonce student_no : Text) (r : FakeRedis)
      → is_spent nonce student_no r ≡ true
      → record_credential_fail log nonce student_no r
        ≡ (true, counted r (attempt nonce student_no r))
  unfolding record_credential_fail
  spent nonce student_no r h = rw (h, record_credential_fail) refl

  unspent :
      (nonce student_no : Text) (r : FakeRedis)
      → is_spent nonce student_no r ≡ false
      → record_credential_fail log nonce student_no r ≡ (false, logged log nonce student_no r)
  unfolding record_credential_fail
  unspent nonce student_no r h = rw (h, record_credential_fail) refl

  -- The lock after the log is the lock before it.
  same_lock :
      (nonce student_no : Text) (r : FakeRedis)
      → entry (lock_key student_no) (logged log nonce student_no r) ≡ entry (lock_key student_no) r
  same_lock nonce student_no r =
      rw (logged_now nonce student_no r) (rw (logged_keeps nonce student_no r) refl)

  held_after :
      (nonce student_no : Text) (r : FakeRedis)
      → is_there (entry (lock_key student_no) r) ≡ true
      → counted r (attempt nonce student_no r) ≡ logged log nonce student_no r
  held_after nonce student_no r h =
      rw
        (set_held (lock_key student_no) (codes "1") (some log.window_seconds)
          (logged log nonce student_no r) (ap is_there (same_lock nonce student_no r) ∙ h))
        refl

  free_after :
      (nonce student_no : Text) (r : FakeRedis)
      → is_there (entry (lock_key student_no) r) ≡ false
      → counted r (attempt nonce student_no r)
        ≡ count_lock log r.now (
            write
              (lock_key student_no)
              (codes "1")
              (some log.window_seconds)
              (logged log nonce student_no r))
  free_after nonce student_no r h =
      rw
        (set_free (lock_key student_no) (codes "1") log.window_seconds
          (logged log nonce student_no r) (ap is_there (same_lock nonce student_no r) ∙ h))
        refl

  written_lock :
      (student_no : Text) (now : ℕ) (r : FakeRedis)
      → 0 < log.window_seconds
      → is_there (
          entry (lock_key student_no) (
            count_lock log now
              (write (lock_key student_no) (codes "1") (some log.window_seconds) r)))
        ≡ true
  written_lock student_no now r w =
      let lives : leb (r.now + log.window_seconds) r.now ≡ false = ground arith in
      let locked = write (lock_key student_no) (codes "1") (some log.window_seconds) r in
      rw (count_keeps student_no now locked)
        (rw (count_now now locked) (rw (text_eq_refl (lock_key student_no), lives) refl))

  lock_after :
      (nonce student_no : Text) (r : FakeRedis)
      → 0 < log.window_seconds
      → is_there (entry (lock_key student_no) (counted r (attempt nonce student_no r))) ≡ true
  lock_after nonce student_no r w = elim (Bool-cases (is_there (entry (lock_key student_no) r))) [
    | inl f ↦
        ap (λ s. is_there (entry (lock_key student_no) s)) (held_after nonce student_no r f)
        ∙ (ap is_there (same_lock nonce student_no r) ∙ f)
    | inr f ↦
        ap (λ s. is_there (entry (lock_key student_no) s)) (free_after nonce student_no r f)
        ∙ written_lock student_no r.now (logged log nonce student_no r) w
  ]

  -- A lock that stands is left as it is, with its deadline, by every further failure.
  pub record_credential_fail-keeps :
      (nonce student_no : Text) (r : FakeRedis)
      → is_locked log student_no r ≡ true
      → (record_credential_fail log nonce student_no r).1.values (lock_key student_no)
        ≡ r.values (lock_key student_no)
  unfolding record_credential_fail is_locked
  record_credential_fail-keeps nonce student_no r h =
      elim (Bool-cases (is_spent nonce student_no r)) [
        | inl e ↦
            ap (λ p. p.1.values (lock_key student_no)) (spent nonce student_no r e)
            ∙ (ap (λ s. s.values (lock_key student_no)) (held_after nonce student_no r h)
                ∙ logged_keeps nonce student_no r)
        | inr e ↦
            ap (λ p. p.1.values (lock_key student_no)) (unspent nonce student_no r e)
            ∙ logged_keeps nonce student_no r
      ]

  -- A failure is answered with True only if the log holds as many failures as the limit, and then,
  -- with a window that is not empty, the account is locked.
  pub record_credential_fail-locks :
      (nonce student_no : Text) (r : FakeRedis)
      → 0 < log.window_seconds
      → (record_credential_fail log nonce student_no r).0 ≡ true
      → (log.fail_limit ≤ zcard (fail_log_key student_no) (logged log nonce student_no r))
        × (is_locked log student_no (record_credential_fail log nonce student_no r).1 ≡ true)
  unfolding record_credential_fail is_locked
  record_credential_fail-locks nonce student_no r w h =
      elim (Bool-cases (is_spent nonce student_no r)) [
        | inr e ↦ absurd (ground (arith, ap (λ p. p.0) (unspent nonce student_no r e)))
        | inl e ↦ (
          ground arith,
          ap (λ p. is_there (entry (lock_key student_no) p.1)) (spent nonce student_no r e)
              ∙ lock_after nonce student_no r w,
        )
      ]
