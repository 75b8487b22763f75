-- ===== src/Auth/Breaker.antt =====
-- backend/app/auth/breaker.py: the circuit breaker around the school.
use nsysu_crs.Common.{
  ℕ, ◌+◌, ◌*◌, ◌≤◌, ◌<◌, Text, codes, text_eq, ◌≡◌, refl, sym, ap, ◌∙◌, Bool, true, false, none,
  some, [], ◌∷◌, any, leb, ltb, if◌then◌else◌, arith, inl, inr, Bool-cases,
}
use nsysu_crs.Common.Decimal.{decimal, digits_value, value-decimal}
use nsysu_crs.Auth.Redis.Commands.{
  get-delete, get-delete_other, get-set, get-set_other, set_once, incr_fresh,
}
use nsysu_crs.Auth.Redis.{FakeRedis, get, set, incr, expire, delete, at_time}

-- STREAK_KEY, OPENED_AT_KEY, PROBE_KEY, PROBE_GATE_SECONDS
abbrev pub streak_key : Text
streak_key = codes "breaker:school:streak"

abbrev pub opened_at_key : Text
opened_at_key = codes "breaker:school:opened_at"

abbrev pub probe_key : Text
probe_key = codes "breaker:school:probe"

abbrev pub probe_gate_seconds : ℕ
probe_gate_seconds = 60

pub record SchoolBreaker : Type 0 where
  pub failure_threshold : ℕ
  pub recovery_after : ℕ

module _ (b : SchoolBreaker) where
  -- `nonce` is the `uuid4` of the call.
  unfoldable pub admit : Text → FakeRedis → Bool × FakeRedis
  admit nonce r = elim (get opened_at_key r) [
    | none ↦ (true, r)
    | some opened_at ↦
        if ltb r.now (digits_value opened_at + b.recovery_after)
        then (false, r)
        else set probe_key nonce true (some probe_gate_seconds) r
  ]

  unfoldable pub record_classified : FakeRedis → FakeRedis
  record_classified r = delete (streak_key ∷ opened_at_key ∷ probe_key ∷ []) r

  unfoldable pub record_unknown : FakeRedis → ℕ × FakeRedis
  record_unknown r =
      let (streak, counted) = incr streak_key r in
      let kept = expire streak_key (2 * b.recovery_after) false counted in
      if leb b.failure_threshold streak
      then (
        streak,
        delete (probe_key ∷ []) (set opened_at_key (decimal kept.now) false none kept).1,
      )
      else (streak, kept)

  free_admits :
      (nonce : Text) (r : FakeRedis) → get opened_at_key r ≡ none → (admit nonce r).0 ≡ true
  unfolding admit
  free_admits nonce r h = rw (h, admit) refl

  refused :
      (now : ℕ) (nonce : Text) (opened_at : ℕ) (r : FakeRedis)
      → get opened_at_key (at_time now r) ≡ some (decimal opened_at)
      → now < opened_at + b.recovery_after
      → (admit nonce (at_time now r)).0 ≡ false
  unfolding admit at_time
  refused now nonce opened_at r h k =
      let early : ltb now (opened_at + b.recovery_after) ≡ true = ground arith in
      rw (h, admit, value-decimal opened_at, early) refl

  streak_of : (r : FakeRedis) → (record_unknown r).0 ≡ (incr streak_key r).0
  unfolding record_unknown
  streak_of r = elim (Bool-cases (leb b.failure_threshold (incr streak_key r).0)) [
    | inl e ↦ rw (e, record_unknown) refl
    | inr e ↦ rw (e, record_unknown) refl
  ]

  abbrev counted : FakeRedis → FakeRedis
  counted r = expire streak_key (2 * b.recovery_after) false (incr streak_key r).1

  opens :
      (r : FakeRedis)
      → leb b.failure_threshold (incr streak_key r).0 ≡ true
      → (record_unknown r).1
        ≡ delete
            (probe_key ∷ [])
            (set opened_at_key (decimal (counted r).now) false none (counted r)).1
  unfolding record_unknown
  opens r h = rw (h, record_unknown) refl

  same_time : (r : FakeRedis) → (counted r).now ≡ r.now
  unfolding incr expire
  same_time r = refl

  opened :
      (r : FakeRedis) (now : ℕ)
      → leb b.failure_threshold (incr streak_key r).0 ≡ true
      → get opened_at_key (at_time now (record_unknown r).1) ≡ some (decimal r.now)
  unfolding text_eq
  opened r now h = rw (opens r h) (
      get-delete_other opened_at_key (probe_key ∷ []) now
        (set opened_at_key (decimal (counted r).now) false none (counted r)).1 refl
      ∙ (get-set opened_at_key (decimal (counted r).now) now (counted r)
          ∙ ap (λ n. some (decimal n)) (same_time r)))

  first_counts : (r : FakeRedis) → get streak_key r ≡ none → (record_unknown r).0 ≡ 1
  unfolding record_unknown
  first_counts r h = ground (arith, incr_fresh streak_key r h)

  cleared :
      (name : Text) (now : ℕ) (r : FakeRedis)
      → any (text_eq name) (streak_key ∷ opened_at_key ∷ probe_key ∷ []) ≡ true
      → get name (at_time now (record_classified r)) ≡ none
  unfolding record_classified
  cleared name now r h = get-delete name (streak_key ∷ opened_at_key ∷ probe_key ∷ []) now r h

  -- The unknown answer that brings the streak to the threshold opens the breaker: until the recovery
  -- time has passed since it, no caller is admitted, if no answer is recorded in between.
  pub record_unknown-opens :
      (r : FakeRedis) (now : ℕ) (nonce : Text)
      → b.failure_threshold ≤ (record_unknown r).0
      → now < r.now + b.recovery_after
      → (admit nonce (at_time now (record_unknown r).1)).0 ≡ false
  record_unknown-opens r now nonce h k =
      refused now nonce r.now (record_unknown r).1 (opened r now (ground (arith, streak_of r))) k

  -- An answer that could be classified closes the breaker: the next caller is admitted at any
  -- time, and the next unknown answer counts as the first.
  pub record_classified-closes :
      (r : FakeRedis) (now : ℕ) (nonce : Text)
      → ((admit nonce (at_time now (record_classified r))).0 ≡ true)
        × ((record_unknown (at_time now (record_classified r))).0 ≡ 1)
  unfolding text_eq
  record_classified-closes r now nonce = (
    free_admits nonce (at_time now (record_classified r)) (cleared opened_at_key now r refl),
    first_counts (at_time now (record_classified r)) (cleared streak_key now r refl),
  )

  permanent :
      (r : FakeRedis) (opened_at : Text) (now : ℕ)
      → r.values opened_at_key ≡ some (opened_at, none)
      → get opened_at_key (at_time now r) ≡ some opened_at
  unfolding get at_time
  permanent r opened_at now h = rw h refl

  probe_granted :
      (r : FakeRedis) (nonce opened_at : Text)
      → get opened_at_key r ≡ some opened_at
      → (admit nonce r).0 ≡ true
      → admit nonce r ≡ set probe_key nonce true (some probe_gate_seconds) r
  unfolding admit
  probe_granted r nonce opened_at h k =
      elim (Bool-cases (ltb r.now (digits_value opened_at + b.recovery_after))) [
        | inl e ↦ absurd (ground (arith, h, e))
        | inr e ↦ rw (h, admit, e) refl
      ]

  probe_taken :
      (r : FakeRedis) (nonce opened_at : Text)
      → get opened_at_key r ≡ some opened_at
      → (admit nonce r).0 ≡ true
      → (set probe_key nonce true (some probe_gate_seconds) r).0 ≡ true
  probe_taken r nonce opened_at h k = sym (ap (λ p. p.0) (probe_granted r nonce opened_at h k)) ∙ k

  second_refused :
      (r : FakeRedis) (opened_at : Text) (now : ℕ) (other : Text)
      → get opened_at_key (at_time now r) ≡ some opened_at
      → (set probe_key other true (some probe_gate_seconds) (at_time now r)).0 ≡ false
      → (admit other (at_time now r)).0 ≡ false
  unfolding admit at_time
  second_refused r opened_at now other h k =
      elim (Bool-cases (ltb now (digits_value opened_at + b.recovery_after))) [
        | inl e ↦ rw (h, admit, e) refl
        | inr e ↦ rw (h, admit, e) k
      ]

  -- While the breaker is open, the call that is admitted is the only one: every other call within
  -- the gate time after it is refused, if no answer is recorded in between.
  pub admit_once :
      (r : FakeRedis) (opened_at : Text) (now : ℕ) (nonce other : Text)
      → r.values opened_at_key ≡ some (opened_at, none)
      → (admit nonce r).0 ≡ true
      → r.now ≤ now
      → now < r.now + probe_gate_seconds
      → (admit other (at_time now (admit nonce r).1)).0 ≡ false
  unfolding text_eq at_time
  admit_once r opened_at now nonce other h k l m =
      rw (probe_granted r nonce opened_at (permanent r opened_at r.now h) k) (
        second_refused (set probe_key nonce true (some probe_gate_seconds) r).1 opened_at now other
          (get-set_other opened_at_key probe_key nonce true (some probe_gate_seconds) now r refl
            ∙ permanent r opened_at now h)
          (set_once probe_key nonce other (some probe_gate_seconds) probe_gate_seconds now r
            (probe_taken r nonce opened_at (permanent r opened_at r.now h) k) m))
