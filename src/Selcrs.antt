-- ===== src/Selcrs.antt =====
-- backend/app/selcrs/http.py: the backoff around one school request. The request is a parameter: its
-- answer to each attempt, `none` for a transport error.
pub mod Attempts
use nsysu_crs.Common.{ℕ, suc, ◌+◌, Bool, true, false, Option, none, some, List, [], ◌∷◌}
use nsysu_crs.Write.Transport.{backoff_seconds}

-- The response, the number of attempts, and the waits after those that failed.
pub record Requested (A : Type 0) : Type 0 where
  pub response : Option A
  pub attempts : ℕ
  pub waits : List ℕ

-- The loop over the waits, from the given attempt on; `none` at the end is SelcrsUnavailable.
unfoldable pub backoff_loop : {A : Type 0} → (ℕ → Option A) → List ℕ → ℕ → Requested A
backoff_loop request [] attempt = record { response = none; attempts = attempt; waits = [] }
backoff_loop request (wait_seconds ∷ more) attempt = elim (request attempt) [
  | some response ↦ record { response = some response; attempts = attempt + 1; waits = [] }
  | none ↦
      let later = backoff_loop request more (suc attempt) in
      record later { waits = wait_seconds ∷ later.waits }
]

unfoldable pub request_with_backoff : {A : Type 0} → (ℕ → Option A) → Requested A
request_with_backoff request = backoff_loop request backoff_seconds 0

-- The lanes that a request holds for its whole loop: the lane of the captchas, on top of that of the
-- school, or the latter alone.
pub data Lane : Type 0 where
  captcha_semaphore school_semaphore : Lane

unfoldable pub request_school : {A : Type 0} → Bool → (ℕ → Option A) → List Lane × Requested A
request_school true request =
    (captcha_semaphore ∷ school_semaphore ∷ [], request_with_backoff request)
request_school false request = (school_semaphore ∷ [], request_with_backoff request)
