-- ===== src/Auth/Tokens.antt =====
-- The single-use and single-holder keys: backend/app/write/confirm.py, the lock of
-- backend/app/catalog/schedule.py, and the double-submit check of backend/app/write/csrf.py.
use nsysu_crs.Common.{
  ℕ, ◌+◌, ◌<◌, Text, codes, text_eq, ◌≡◌, refl, ap, ◌∙◌, Bool, true, false, not, Option, none, some,
  [], ◌∷◌, ◌++◌, ltb, if◌then◌else◌, arith, inl, inr, Bool-cases,
}
use nsysu_crs.Common.Search.{after_prefix}
use nsysu_crs.Auth.Redis.{FakeRedis, get, getdel, set, delete, at_time}
use nsysu_crs.Auth.Redis.Commands.{get-getdel, get-set_until, getdel-get, set_once}

pub record ConfirmRecord : Type 0 where
  pub student_no : Text
  pub canonical_ops : Text
  pub variant : Text
  pub form_url : Text

unfoldable pub confirm_key : Text → Text
confirm_key token = codes "confirm:" ++ token

-- The JSON of a record is a parameter: `none` is a payload that does not validate.
pub record RecordJson : Type 0 where
  pub dump : ConfirmRecord → Text
  pub validate : Text → Option ConfirmRecord

module _ (json : RecordJson) where
  unfoldable pub store_confirm : Text → ConfirmRecord → ℕ → FakeRedis → FakeRedis
  store_confirm token entitled ttl r =
      (set (confirm_key token) (json.dump entitled) false (some ttl) r).1

  unfoldable pub consume_confirm : Text → FakeRedis → Option ConfirmRecord × FakeRedis
  consume_confirm token r =
      let (payload, r') = getdel (confirm_key token) r in
      (elim payload [ none ↦ none | some p ↦ json.validate p ], r')

  taken :
      (token : Text) (r : FakeRedis) (payload : Option Text)
      → get (confirm_key token) r ≡ payload
      → (consume_confirm token r).0 ≡ elim payload [ none ↦ none | some p ↦ json.validate p ]
  unfolding consume_confirm
  taken token r payload h =
      ap
        (λ (found : Option Text). elim found as (λ _. Option ConfirmRecord) [
          | none ↦ none
          | some p ↦ json.validate p
        ])
        (getdel-get (confirm_key token) r ∙ h)

  -- A stored record that the JSON round trip keeps is taken once: within its time the first taker
  -- gets it, and whoever comes after a taker, at any time, gets nothing.
  pub consume_confirm_once :
      (token : Text) (entitled : ConfirmRecord) (ttl now later : ℕ) (r : FakeRedis)
      → json.validate (json.dump entitled) ≡ some entitled
      → now < r.now + ttl
      → ((consume_confirm token (at_time now (store_confirm token entitled ttl r))).0
          ≡ some entitled)
        × ((consume_confirm token (
              at_time later
                (consume_confirm token (at_time now (store_confirm token entitled ttl r))).1)).0
            ≡ none)
  unfolding consume_confirm store_confirm
  consume_confirm_once token entitled ttl now later r h k = (
    taken token (at_time now (store_confirm token entitled ttl r)) (some (json.dump entitled))
          (get-set_until (confirm_key token) (json.dump entitled) ttl now r k)
        ∙ h,
    taken token
        (at_time later
          (getdel (confirm_key token) (at_time now (store_confirm token entitled ttl r))).1)
        none
        (get-getdel (confirm_key token) later (at_time now (store_confirm token entitled ttl r))),
  )

-- LOCK_KEY and _MIN_LOCK_TTL_SECONDS of the scheduler.
module _ (lock_name : Text) (min_ttl : ℕ) where
  unfoldable pub lock_ttl : ℕ → ℕ
  lock_ttl ttl_seconds = if ltb ttl_seconds min_ttl then min_ttl else ttl_seconds

  unfoldable pub acquire : Text → ℕ → FakeRedis → Option Text × FakeRedis
  acquire token ttl_seconds r =
      let (taken, r') = set lock_name token true (some (lock_ttl ttl_seconds)) r in
      (if taken then some token else none, r')

  -- The compare-and-delete of the Lua script.
  unfoldable pub release : Text → FakeRedis → Bool × FakeRedis
  release token r = elim (get lock_name r) [
    | none ↦ (false, r)
    | some holder ↦ if text_eq holder token then (true, delete (lock_name ∷ []) r) else (false, r)
  ]

  taken_once :
      (token : Text) (ttl : ℕ) (r : FakeRedis)
      → (acquire token ttl r).0 ≡ some token
      → (set lock_name token true (some (lock_ttl ttl)) r).0 ≡ true
  unfolding acquire
  taken_once token ttl r h =
      elim (Bool-cases (set lock_name token true (some (lock_ttl ttl)) r).0) [
        | inl e ↦ e
        | inr e ↦ absurd (ground arith)
      ]

  -- While a holder's time runs, nobody else acquires the lock.
  pub acquire_exclusive :
      (token other : Text) (ttl ttl' now : ℕ) (r : FakeRedis)
      → (acquire token ttl r).0 ≡ some token
      → now < r.now + lock_ttl ttl
      → (acquire other ttl' (at_time now (acquire token ttl r).1)).0 ≡ none
  unfolding acquire
  acquire_exclusive token other ttl ttl' now r h k =
      rw
        (set_once lock_name token other (some (lock_ttl ttl')) (lock_ttl ttl) now r
          (taken_once token ttl r h) k)
        refl

-- What the CSRF middleware does with a request: pass it on, refuse it, or pass it on and refresh the
-- cookie of the session with the same value.
pub data CsrfVerdict : Type 0 where
  passed refused : CsrfVerdict
  refreshed : Text → Text → CsrfVerdict

unfoldable pub csrf_cookie_name : Text → Text
csrf_cookie_name session_id = codes "csrf_" ++ session_id

pub record Request : Type 0 where
  pub path : Text
  pub cookie : Text → Option Text
  pub csrf_header : Option Text

abbrev is_write_path : Text → Bool
is_write_path path = elim (after_prefix (codes "/api/write/") path) [ none ↦ false | some r ↦ true ]

-- `if session_id:` is false for the empty text.
abbrev expected_token : Request → Option Text → Option Text
expected_token request none = none
expected_token request (some []) = none
expected_token request (some (c ∷ t)) = request.cookie (csrf_cookie_name (c ∷ t))

unfoldable pub csrf_dispatch : Request → CsrfVerdict
csrf_dispatch request =
    let session_id = request.cookie (codes "session_id") in
    if not (is_write_path request.path) then passed else elim session_id [
      | none ↦ refused
      | some id ↦ elim (expected_token request (some id)) [
        | none ↦ refused
        | some expected ↦ elim request.csrf_header [
          | none ↦ refused
          | some provided ↦ if text_eq expected provided then refreshed id expected else refused
        ]
      ]
    ]
