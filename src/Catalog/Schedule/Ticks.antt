-- ===== src/Catalog/Schedule/Ticks.antt =====
-- What one tick of the scheduler of backend/app/catalog/schedule.py does with the lock.
use nsysu_crs.Common.{
  ℕ, ◌<◌, Text, text_eq, text_eq_refl, text_eq_iff, ◌+◌, ap, ◌∙◌, ◌≡◌, ◌≢◌, refl, ◌⊎◌, inl, inr,
  Bool, true, false, none, some, [], ◌∷◌, leb, arith, Bool-cases, Option-cases,
}
use nsysu_crs.Auth.Redis.{FakeRedis, get, set, delete, at_time, entry}
use nsysu_crs.Auth.Redis.Commands.{get-delete}
use nsysu_crs.Auth.Tokens.{lock_ttl, acquire, release}
use nsysu_crs.Catalog.Schedule.{Scheduler, Tick, scheduler_tick}

-- The store that the run of a tick finds, with the lock taken.
abbrev pub started : Scheduler → Text → Tick → FakeRedis → FakeRedis
started s token tick r = (acquire s.lock_name s.min_ttl token tick.ttl r).1

-- The end of a run: its own lock is given back, and any other is left.
abbrev pub GivesBack : Text → Text → FakeRedis → FakeRedis → Type 0
GivesBack lock_name token after final =
    ((get lock_name after ≡ some token) × (get lock_name final ≡ none))
    ⊎ ((get lock_name after ≢ some token) × (final ≡ after))

abbrev pub IsCoalesced : Text → FakeRedis → Bool × FakeRedis → Type 0
IsCoalesced lock_name r out = (get lock_name r ≢ none) × (out ≡ (false, r))

abbrev pub HasRun :
    Scheduler → Text → Tick → (FakeRedis → FakeRedis) → FakeRedis → Bool × FakeRedis → Type 0
HasRun s token tick run_once r out =
    (get s.lock_name r ≡ none)
    × (out.0 ≡ true)
    × (get s.lock_name (started s token tick r) ≡ some token)
    × GivesBack s.lock_name token (run_once (started s token tick r)) out.1

release-GivesBack :
    (lock_name : Text) (min_ttl : ℕ) (token : Text) (r : FakeRedis)
    → GivesBack lock_name token r (release lock_name min_ttl token r).1
unfolding release get delete at_time
release-GivesBack lock_name min_ttl token r = elim (Option-cases (get lock_name r)) [
  | inl e ↦ inr (λ h. cc, rw (e, release) refl)
  | inr (holder, e) ↦ elim (Bool-cases (text_eq holder token)) [
    | inl m ↦ inl (
      e ∙ ap some ((text_eq_iff holder token).0 m),
      rw (e, m, release)
          (get-delete lock_name (lock_name ∷ []) r.now r (rw (text_eq_refl lock_name) refl)),
    )
    | inr m ↦ inr (λ h. cc (text_eq_refl token), rw (e, m, release) refl)
  ]
]

acquire-free :
    (lock_name : Text) (min_ttl : ℕ) (token : Text) (ttl : ℕ) (r : FakeRedis)
    → 0 < min_ttl
    → get lock_name r ≡ none
    → ((acquire lock_name min_ttl token ttl r).0 ≡ some token)
      × (get lock_name (acquire lock_name min_ttl token ttl r).1 ≡ some token)
unfolding acquire set get lock_ttl
acquire-free lock_name min_ttl token ttl r p h = elim (Option-cases (entry lock_name r)) [
  | inl e ↦
      let lives : leb (r.now + lock_ttl lock_name min_ttl ttl) r.now ≡ false = ground arith in
      (ground (arith, e), rw (e, acquire, set, text_eq_refl lock_name, lives) refl)
  | inr ((v, x), e) ↦ cc (rw e at h)
]

acquire-held :
    (lock_name : Text) (min_ttl : ℕ) (token holder : Text) (ttl : ℕ) (r : FakeRedis)
    → get lock_name r ≡ some holder
    → acquire lock_name min_ttl token ttl r ≡ (none, r)
unfolding acquire set get
acquire-held lock_name min_ttl token holder ttl r h = elim (Option-cases (entry lock_name r)) [
  | inl e ↦ cc (rw e at h)
  | inr ((v, x), e) ↦ rw (e, acquire, set) refl
]

-- A tick that finds the lock held does nothing. One that finds it free runs, with the lock, and at the
-- end gives it back if it has it still, or leaves the store as the run did. The least time of the lock
-- is not zero.
pub scheduler_tick_lem :
    (s : Scheduler) (token : Text) (tick : Tick) (run_once : FakeRedis → FakeRedis) (r : FakeRedis)
    → 0 < s.min_ttl
    → IsCoalesced s.lock_name r (scheduler_tick s token tick run_once r)
      ⊎ HasRun s token tick run_once r (scheduler_tick s token tick run_once r)
unfolding scheduler_tick
scheduler_tick_lem s token tick run_once r p = elim (Option-cases (get s.lock_name r)) [
  | inl e ↦
      let (t, g) = acquire-free s.lock_name s.min_ttl token tick.ttl r p e in
      inr (
        e,
        rw (t, scheduler_tick) refl,
        g,
        rw (t, scheduler_tick)
            (release-GivesBack s.lock_name s.min_ttl token (run_once (started s token tick r))),
      )
  | inr (holder, e) ↦
      let q = acquire-held s.lock_name s.min_ttl token holder tick.ttl r e in
      inl (λ h. cc, rw (ap (λ o. o.0) q, ap (λ o. o.1) q, scheduler_tick) refl)
]
