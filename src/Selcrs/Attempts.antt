-- ===== src/Selcrs/Attempts.antt =====
-- How often `request_school` of backend/app/selcrs/http.py asks the school, and what it returns.
use nsysu_crs.Common.{
  ℕ, zero, suc, ◌+◌, ◌<◌, ◌≡◌, refl, ap, ◌∙◌, ◌⊎◌, inl, inr, Option, none, some, List, [], ◌∷◌,
  length, take, arith, Option-cases,
}
use nsysu_crs.Write.Transport.{backoff_seconds}
use nsysu_crs.Selcrs.{Requested, backoff_loop, request_with_backoff}

module _ {A : Type 0} (request : ℕ → Option A) where
  -- The attempt `k` behind the given one is the first that is answered, within the waits.
  pub record IsServed (waits : List ℕ) (attempt : ℕ) (r : Requested A) : Type 0 where
    pub k : ℕ
    pub answer : A
    pub within : k < length waits
    pub answered : request (k + attempt) ≡ some answer
    pub unanswered : (j : ℕ) → j < k → request (j + attempt) ≡ none
    pub returned : r.response ≡ some answer
    pub counted : r.attempts ≡ k + attempt + 1
    pub waited : r.waits ≡ take k waits

  pub record IsUnserved (waits : List ℕ) (attempt : ℕ) (r : Requested A) : Type 0 where
    pub silent : (j : ℕ) → j < length waits → request (j + attempt) ≡ none
    pub returned : r.response ≡ none
    pub counted : r.attempts ≡ length waits + attempt
    pub waited : r.waits ≡ waits

  abbrev pub IsTried : List ℕ → ℕ → Requested A → Type 0
  IsTried waits attempt r = IsServed waits attempt r ⊎ IsUnserved waits attempt r

  start : (attempt : ℕ) → 0 + attempt ≡ attempt
  start attempt = omega arith

  shift : (j attempt : ℕ) → suc j + attempt ≡ j + suc attempt
  shift j attempt = omega arith

  silent_before :
      (attempt k : ℕ)
      → request attempt ≡ none
      → ((j : ℕ) → j < k → request (j + suc attempt) ≡ none)
      → (j : ℕ) → j < suc k
      → request (j + attempt) ≡ none
  silent_before attempt k e f zero h = ap request (start attempt) ∙ e
  silent_before attempt k e f (suc j) h = ap request (shift j attempt) ∙ f j (omega arith)

  loop-IsTried :
      (waits : List ℕ) (attempt : ℕ) → IsTried waits attempt (backoff_loop request waits attempt)
  unfolding backoff_loop
  loop-IsTried [] attempt = inr (record {
    silent = λ j h. absurd (omega arith);
    returned = refl;
    counted = omega arith;
    waited = refl;
  })
  loop-IsTried (w ∷ waits) attempt = elim (Option-cases (request attempt)) [
    | inr (a, e) ↦ inl (record {
      k = 0;
      answer = a;
      within = omega arith;
      answered = ap request (start attempt) ∙ e;
      unanswered = λ j h. absurd (omega arith);
      returned = rw (e, backoff_loop) refl;
      counted = rw (e, backoff_loop) (omega arith);
      waited = rw (e, backoff_loop) refl;
    })
    | inl e ↦ elim (loop-IsTried waits (suc attempt)) [
      | inl s ↦ inl (record {
        k = suc s.k;
        answer = s.answer;
        within = omega (arith, s.within);
        answered = ap request (shift s.k attempt) ∙ s.answered;
        unanswered = silent_before attempt s.k e s.unanswered;
        returned = rw (e, backoff_loop) s.returned;
        counted = rw (e, backoff_loop) (omega (arith, s.counted));
        waited = rw (e, backoff_loop) (ap (λ ws. w ∷ ws) s.waited);
      })
      | inr u ↦ inr (record {
        silent = silent_before attempt (length waits) e u.silent;
        returned = rw (e, backoff_loop) u.returned;
        counted = rw (e, backoff_loop) (omega (arith, u.counted));
        waited = rw (e, backoff_loop) (ap (λ ws. w ∷ ws) u.waited);
      })
    ]
  ]

  -- A request is made five times at most. It returns the first answer, after as many waits as there
  -- were failures before it; and if none of the five is answered, it has made all five, has waited
  -- after each, and returns nothing.
  pub request_with_backoff_lem : IsTried backoff_seconds 0 (request_with_backoff request)
  unfolding request_with_backoff
  request_with_backoff_lem = loop-IsTried backoff_seconds 0
