-- ===== src/Solver.antt =====
-- backend/app/solver/loop.py: one catalog page behind a captcha, with a fresh image for each attempt.
-- The two fetchers and the solver are parameters.
use nsysu_crs.Common.Search.{occurs}
use nsysu_crs.Write.Timetable.{is_space}
use nsysu_crs.Common.{
  codes, List, [], ◌∷◌, any, keep, not, ℕ, zero, suc, ◌+◌, ◌<◌, Text, ◌≡◌, refl, ◌⊎◌, inl, inr,
  Bool, true, false, Option, none, some, Result, ok, raise, if◌then◌else◌, arith, Bool-cases,
  Option-cases,
}

pub record CaptchaPageResult (Validcode : Type 0) : Type 0 where
  pub html : Text
  pub attempts : ℕ
  pub validcode : Validcode

-- What a run raises: CaptchaUnsolvable, or the SelcrsUnavailable of a fetcher.
pub data RunError : Type 0 where
  captcha_unsolvable : ℕ → RunError
  selcrs_unavailable : RunError

-- The school and the solver: the image fetched with the run's cookies (none at first), the cookies
-- that come with it, its code, the page for the code, and the NFKC form of a text. The fetchers are
-- given the number of the attempt; `none` is SelcrsUnavailable.
pub record School (Jar Validcode : Type 0) : Type 0 where
  pub fetch_validcode : ℕ → Option Jar → Option Validcode
  pub cookies : Validcode → Jar
  pub solve : Validcode → Text
  pub fetch_catalog_page : ℕ → Text → Jar → Option Text
  pub nfkc : Text → Text

-- `_normalize`: the NFKC form without white space.
unfoldable pub normalize : (Text → Text) → Text → Text
normalize nfkc text = keep (λ c. not (is_space c)) (nfkc text)

abbrev pub wrong_code_markers : List Text
wrong_code_markers = codes "Wrong Validation Code" ∷ codes "驗證碼錯誤" ∷ []

unfoldable pub is_wrong_code_response : (Text → Text) → Text → Bool
is_wrong_code_response nfkc html =
    any (λ marker. occurs (normalize nfkc marker) (normalize nfkc html)) wrong_code_markers

module _ {Jar Validcode : Type 0} (s : School Jar Validcode) where
  abbrev pub page_of : ℕ → Validcode → Option Text
  page_of attempt v = s.fetch_catalog_page attempt (s.solve v) (s.cookies v)

  -- `left` rounds of the `for` loop, from the given attempt on.
  unfoldable pub run_loop : ℕ → ℕ → ℕ → Option Jar → Result RunError (CaptchaPageResult Validcode)
  run_loop max_attempts zero attempt jar = raise (captcha_unsolvable max_attempts)
  run_loop max_attempts (suc left) attempt jar = elim (s.fetch_validcode attempt jar) [
    | none ↦ raise selcrs_unavailable
    | some validcode ↦
        let later = run_loop max_attempts left (suc attempt) (some (s.cookies validcode)) in
        elim (page_of attempt validcode) [
          | none ↦ raise selcrs_unavailable
          | some html ↦
              if is_wrong_code_response s.nfkc html
              then later
              else ok (record { html = html; attempts = attempt; validcode = validcode })
        ]
  ]

  unfoldable pub run_page : ℕ → Result RunError (CaptchaPageResult Validcode)
  run_page max_attempts = run_loop max_attempts max_attempts 1 none

  -- An attempt with the jar whose code is refused, and the image that it fetched.
  abbrev IsRefused : ℕ → Option Jar → Validcode → Type 0
  IsRefused attempt jar v =
      (s.fetch_validcode attempt jar ≡ some v)
      × (html : Text) × (page_of attempt v ≡ some html)
      × (is_wrong_code_response s.nfkc html ≡ true)

  -- So many refused attempts, from the given one on, lead from one jar to the other.
  abbrev pub Refused : ℕ → ℕ → Option Jar → Option Jar → Type 0
  Refused zero attempt jar last = jar ≡ last
  Refused (suc n) attempt jar last =
      (v : Validcode) × IsRefused attempt jar v × Refused n (suc attempt) (some (s.cookies v)) last

  abbrev pub Fails : ℕ → Option Jar → Type 0
  Fails attempt jar =
      (s.fetch_validcode attempt jar ≡ none)
      ⊎ ((v : Validcode) × (s.fetch_validcode attempt jar ≡ some v) × (page_of attempt v ≡ none))

  -- After refused attempts, fewer than allowed, one whose page is not refused.
  pub record IsAnswered (left attempt : ℕ) (jar : Option Jar)
      (result : Result RunError (CaptchaPageResult Validcode)) : Type 0 where
    pub n : ℕ
    pub last : Option Jar
    pub page : CaptchaPageResult Validcode
    pub refused : Refused n attempt jar last
    pub few : n < left
    pub image : s.fetch_validcode (attempt + n) last ≡ some page.validcode
    pub answer : page_of (attempt + n) page.validcode ≡ some page.html
    pub accepted : is_wrong_code_response s.nfkc page.html ≡ false
    pub counted : page.attempts ≡ attempt + n
    pub returned : result ≡ ok page

  -- After refused attempts, fewer than allowed, one in which a fetcher fails.
  pub record IsBroken (left attempt : ℕ) (jar : Option Jar)
      (result : Result RunError (CaptchaPageResult Validcode)) : Type 0 where
    pub n : ℕ
    pub last : Option Jar
    pub refused : Refused n attempt jar last
    pub few : n < left
    pub fails : Fails (attempt + n) last
    pub raised : result ≡ raise selcrs_unavailable

  -- Every attempt that is allowed is refused.
  pub record IsUnsolved (max_attempts left attempt : ℕ) (jar : Option Jar)
      (result : Result RunError (CaptchaPageResult Validcode)) : Type 0 where
    pub last : Option Jar
    pub refused : Refused left attempt jar last
    pub raised : result ≡ raise (captcha_unsolvable max_attempts)

  abbrev pub Ends : ℕ → ℕ → ℕ → Option Jar → Result RunError (CaptchaPageResult Validcode) → Type 0
  Ends max_attempts left attempt jar result =
      IsAnswered left attempt jar result
      ⊎ (IsBroken left attempt jar result ⊎ IsUnsolved max_attempts left attempt jar result)

  -- A refused attempt before the others.
  onward :
      (max_attempts left attempt : ℕ) (jar : Option Jar) (v : Validcode)
      (result : Result RunError (CaptchaPageResult Validcode))
      → IsRefused attempt jar v
      → Ends max_attempts left (suc attempt) (some (s.cookies v)) result
      → Ends max_attempts (suc left) attempt jar result
  onward max_attempts left attempt jar v result r (inl a) =
      let e : attempt + suc a.n ≡ suc attempt + a.n = omega arith in
      inl (record {
        n = suc a.n;
        last = a.last;
        page = a.page;
        refused = (v, r, a.refused);
        few = (let h = a.few in omega arith);
        image = rw e a.image;
        answer = rw e a.answer;
        accepted = a.accepted;
        counted = rw e a.counted;
        returned = a.returned;
      })
  onward max_attempts left attempt jar v result r (inr (inl b)) =
      let e : attempt + suc b.n ≡ suc attempt + b.n = omega arith in
      inr (
        inl (record {
          n = suc b.n;
          last = b.last;
          refused = (v, r, b.refused);
          few = (let h = b.few in omega arith);
          fails = rw e b.fails;
          raised = b.raised;
        }))
  onward max_attempts left attempt jar v result r (inr (inr u)) =
      inr (inr (record { last = u.last; refused = (v, r, u.refused); raised = u.raised }))

  loop_lem :
      (max_attempts left attempt : ℕ) (jar : Option Jar)
      → Ends max_attempts left attempt jar (run_loop max_attempts left attempt jar)
  unfolding run_loop
  loop_lem max_attempts zero attempt jar =
      inr (inr (record { last = jar; refused = refl; raised = refl }))
  loop_lem max_attempts (suc left) attempt jar =
      let here : attempt + 0 ≡ attempt = omega arith in
      elim (Option-cases (s.fetch_validcode attempt jar)) [
        | inl e ↦ inr (
            inl (record {
              n = 0;
              last = jar;
              refused = refl;
              few = omega arith;
              fails = rw here (inl e);
              raised = rw (e, run_loop) refl;
            }))
        | inr (v, e) ↦ elim (Option-cases (page_of attempt v)) [
          | inl f ↦ inr (
              inl (record {
                n = 0;
                last = jar;
                refused = refl;
                few = omega arith;
                fails = rw here (inr (v, e, f));
                raised = rw (e, run_loop, f) refl;
              }))
          | inr (html, f) ↦ elim (Bool-cases (is_wrong_code_response s.nfkc html)) [
            | inr g ↦ inl (record {
              n = 0;
              last = jar;
              page = record { html = html; attempts = attempt; validcode = v };
              refused = refl;
              few = omega arith;
              image = rw here e;
              answer = rw here f;
              accepted = g;
              counted = rw here refl;
              returned = rw (e, run_loop, f, g) refl;
            })
            | inl g ↦
                onward max_attempts left attempt jar v
                  (run_loop max_attempts (suc left) attempt jar) (e, html, f, g)
                  (rw (e, run_loop, f, g)
                    (loop_lem max_attempts left (suc attempt) (some (s.cookies v))))
          ]
        ]
      ]

  -- A run makes refused attempts, each with the cookies of the image before it and the first without
  -- any: fewer than allowed, and then one whose page is not refused, which is returned with the number
  -- of the attempt and its image; or fewer than allowed, and then one in which a fetcher fails, and
  -- SelcrsUnavailable is raised; or as many as allowed, and CaptchaUnsolvable is raised.
  pub run_page_lem :
      (max_attempts : ℕ) → Ends max_attempts max_attempts 1 none (run_page max_attempts)
  unfolding run_page
  run_page_lem max_attempts = loop_lem max_attempts max_attempts 1 none
