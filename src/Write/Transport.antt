-- ===== src/Write/Transport.antt =====
-- The retry discipline of a school call: `_transport_call` of backend/app/write/engine.py, over the
-- backoff waits of backend/app/selcrs/http.py. The school's answer to each attempt is given by a
-- function; `none` is SelcrsUnavailable.
use nsysu_crs.Common.{
  ℕ, zero, suc, ◌+◌, ◌≤◌, ◌<◌, ◌≡◌, ◌⊎◌, inl, inr, refl, Bool, true, Option, none, some, List, [],
  ◌∷◌, get_elem?, take, ltb, ◌==◌, arith, Option-cases, if◌then◌else◌,
}

-- BACKOFF_SECONDS and TRANSPORT_RETRIES
abbrev pub backoff_seconds : List ℕ
backoff_seconds = 1 ∷ 2 ∷ 4 ∷ 8 ∷ 16 ∷ []

abbrev pub transport_retries : ℕ
transport_retries = 2

-- The result and whether it took a retry; how many calls were made, and the waits between them.
pub record Called (A : Type 0) : Type 0 where
  pub result : Option A
  pub retried : Bool
  pub attempts : ℕ
  pub waits : List ℕ

abbrev wait_before : Option ℕ → {A : Type 0} → Called A → Called A
wait_before none c = c
wait_before (some w) c = record c { waits = w ∷ c.waits }

-- `left` rounds of the `for` loop, from the given attempt on.
call_loop : {A : Type 0} → (ℕ → Option A) → ℕ → ℕ → Called A
call_loop answer zero attempt = record {
  result = none;
  retried = true;
  attempts = attempt;
  waits = [];
}
call_loop answer (suc left) attempt = elim (answer attempt) [
  | some a ↦ record { result = some a; retried = ltb 0 attempt; attempts = attempt + 1; waits = [] }
  | none ↦
      if attempt == transport_retries
      then record { result = none; retried = true; attempts = attempt + 1; waits = [] }
      else wait_before (get_elem? backoff_seconds attempt) (call_loop answer left (suc attempt))
]

unfoldable pub transport_call : {A : Type 0} → (ℕ → Option A) → Called A
unfolding call_loop
transport_call answer = call_loop answer (transport_retries + 1) 0

-- The attempt is the first one that the school answers.
abbrev pub IsFirst : {A : Type 0} → (ℕ → Option A) → ℕ → A → Type 0
IsFirst answer k a = (answer k ≡ some a) × ((j : ℕ) → j < k → answer j ≡ none)

-- The call has the first answer within its attempts.
abbrev pub IsAnswered : {A : Type 0} → (ℕ → Option A) → Type 0
IsAnswered {A} answer =
    (k : ℕ) × (a : A) × (k ≤ transport_retries)
    × IsFirst answer k a
    × (transport_call answer ≡ record {
      result = some a;
      retried = ltb 0 k;
      attempts = k + 1;
      waits = take k backoff_seconds;
    })

-- None of its attempts is answered.
abbrev pub IsExhausted : {A : Type 0} → (ℕ → Option A) → Type 0
IsExhausted answer =
    ((k : ℕ) → k ≤ transport_retries → answer k ≡ none)
    × (transport_call answer
        ≡ record { result = none; retried = true; attempts = 3; waits = 1 ∷ 2 ∷ [] })

-- A call takes three attempts at most. It has the school's first answer within them, marked as
-- retried if that was not the first attempt, after waits of 1 and 2 seconds as far as needed; and
-- if none of the three is answered it has no result and is marked as retried.
pub transport_call_lem :
    {A : Type 0} (answer : ℕ → Option A) → IsAnswered answer ⊎ IsExhausted answer
unfolding transport_call
transport_call_lem answer = elim (Option-cases (answer 0)) [
  | inr (a, e0) ↦ inl (0, a, omega arith, (e0, λ j h. absurd (omega arith)), rw e0 refl)
  | inl e0 ↦ elim (Option-cases (answer 1)) [
    | inr (a, e1) ↦ inl (1, a, omega arith, (e1, λ j h. before_one e0 j h), rw e0 (rw e1 refl))
    | inl e1 ↦ elim (Option-cases (answer 2)) [
      | inr (a, e2) ↦
          inl (2, a, omega arith, (e2, λ j h. before_two e0 e1 j h), rw e0 (rw e1 (rw e2 refl)))
      | inl e2 ↦ inr (λ k h. all_three e0 e1 e2 k h, rw e0 (rw e1 (rw e2 refl)))
    ]
  ]
]
  where
    before_one : answer 0 ≡ none → (j : ℕ) → j < 1 → answer j ≡ none
    before_one e0 zero h = e0
    before_one e0 (suc j) h = absurd (omega arith)

    before_two : answer 0 ≡ none → answer 1 ≡ none → (j : ℕ) → j < 2 → answer j ≡ none
    before_two e0 e1 zero h = e0
    before_two e0 e1 (suc zero) h = e1
    before_two e0 e1 (suc (suc j)) h = absurd (omega arith)

    all_three :
        answer 0 ≡ none → answer 1 ≡ none → answer 2 ≡ none → (k : ℕ) → k ≤ 2 → answer k ≡ none
    all_three e0 e1 e2 zero h = e0
    all_three e0 e1 e2 (suc zero) h = e1
    all_three e0 e1 e2 (suc (suc zero)) h = e2
    all_three e0 e1 e2 (suc (suc (suc k))) h = absurd (omega arith)
