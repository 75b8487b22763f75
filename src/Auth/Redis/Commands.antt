-- ===== src/Auth/Redis/Commands.antt =====
-- What a command of the store leaves to be read, now and later.
use nsysu_crs.Common.{
  ℕ, ◌+◌, ◌<◌, Text, text_eq, text_eq_refl, ◌≡◌, refl, Bool, true, false, Option, none, some, List,
  any, leb, arith, inl, inr, Bool-cases, Option-cases,
}
use nsysu_crs.Auth.Redis.{FakeRedis, get, getdel, set, incr, delete, at_time, entry, is_there}

pub get-delete :
    (name : Text) (names : List Text) (now : ℕ) (r : FakeRedis)
    → any (text_eq name) names ≡ true
    → get name (at_time now (delete names r)) ≡ none
unfolding get delete at_time
get-delete name names now r h = rw h refl

pub get-delete_other :
    (name : Text) (names : List Text) (now : ℕ) (r : FakeRedis)
    → any (text_eq name) names ≡ false
    → get name (at_time now (delete names r)) ≡ get name (at_time now r)
unfolding get delete at_time
get-delete_other name names now r h = rw h refl

-- A value without expiry stays.
pub get-set :
    (name value : Text) (now : ℕ) (r : FakeRedis)
    → get name (at_time now (set name value false none r).1) ≡ some value
unfolding get set at_time
get-set name value now r = rw (text_eq_refl name) refl

pub get-set_other :
    (name other value : Text) (nx : Bool) (ex : Option ℕ) (now : ℕ) (r : FakeRedis)
    → text_eq name other ≡ false
    → get name (at_time now (set other value nx ex r).1) ≡ get name (at_time now r)
unfolding get set at_time
get-set_other name other value nx ex now r h = elim (Bool-cases (is_there (entry other r))) [
  | inl e ↦ ground arith
  | inr e ↦ ground arith
]

pub get-getdel :
    (name : Text) (now : ℕ) (r : FakeRedis) → get name (at_time now (getdel name r).1) ≡ none
unfolding get getdel at_time
get-getdel name now r = rw (text_eq_refl name) refl

-- The key was free, is set with an expiry, and is not set again before it.
pub set_once :
    (name value other : Text) (ex : Option ℕ) (seconds now : ℕ) (r : FakeRedis)
    → (set name value true (some seconds) r).0 ≡ true
    → now < r.now + seconds
    → (set name other true ex (at_time now (set name value true (some seconds) r).1)).0 ≡ false
unfolding set at_time
set_once name value other ex seconds now r h k = elim (Bool-cases (is_there (entry name r))) [
  | inl e ↦ absurd (ground arith)
  | inr e ↦
      let lives : leb (r.now + seconds) now ≡ false = ground arith in
      rw (e, text_eq_refl name, lives) refl
]

pub incr_fresh : (name : Text) (r : FakeRedis) → get name r ≡ none → (incr name r).0 ≡ 1
unfolding get incr
incr_fresh name r h = elim (Option-cases (entry name r)) [
  | inl e ↦ ground (arith, e)
  | inr ((v, x), e) ↦ cc (rw e at h)
]

-- A value with an expiry stays until then.
pub get-set_until :
    (name value : Text) (seconds now : ℕ) (r : FakeRedis)
    → now < r.now + seconds
    → get name (at_time now (set name value false (some seconds) r).1) ≡ some value
unfolding get set at_time
get-set_until name value seconds now r h =
    let lives : leb (r.now + seconds) now ≡ false = ground arith in
    rw (text_eq_refl name, lives) refl

pub getdel-get : (name : Text) (r : FakeRedis) → (getdel name r).0 ≡ get name r
unfolding get getdel
getdel-get name r = refl
