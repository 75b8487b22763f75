-- ===== src/Auth/Sessions.antt =====
-- backend/app/auth/sessions.py: the site session and the jars of the school's systems. The parsers of
-- requests and cookies are not modelled; a session identifier is an argument where `uuid4` gives it.
pub mod Ends
use nsysu_crs.Common.{
  ℕ, ◌+◌, ◌≤◌, Text, codes, text_eq, text_eq_refl, ◌≡◌, refl, ◌∙◌, Bool, true, false, Option, none,
  some, List, [], ◌∷◌, ◌++◌, any, leb, arith, inl, inr, Option-cases,
}
use nsysu_crs.Auth.Redis.{FakeRedis, entry, get, set, expire, delete, at_time, is_there}
use nsysu_crs.Auth.Redis.Commands.{get-delete}

abbrev pub site_session_ttl_seconds : ℕ
site_session_ttl_seconds = 604800

unfoldable pub site_key : Text → Text
site_key session_id = codes "site_session:" ++ session_id

unfoldable pub selcrs_key : Text → Text
selcrs_key session_id = codes "selcrs:" ++ session_id

unfoldable pub selcrs_hard_key : Text → Text
selcrs_hard_key session_id = codes "selcrs_hard:" ++ session_id

unfoldable pub selections_key : Text → Text
selections_key session_id = codes "selections:" ++ session_id

unfoldable pub grades_key : Text → Text
grades_key session_id = codes "grades:" ++ session_id

unfoldable pub regweb_key : Text → Text
regweb_key session_id = codes "regweb:" ++ session_id

unfoldable pub regweb_hard_key : Text → Text
regweb_hard_key session_id = codes "regweb_hard:" ++ session_id

unfoldable pub stusco_key : Text → Text
stusco_key session_id = codes "stusco:" ++ session_id

unfoldable pub stusco_hard_key : Text → Text
stusco_hard_key session_id = codes "stusco_hard:" ++ session_id

unfoldable pub create_site_session : Text → Text → FakeRedis → FakeRedis
create_site_session session_id student_no r =
    (set (site_key session_id) student_no false (some site_session_ttl_seconds) r).1

unfoldable pub resolve_site_session : Text → FakeRedis → Option Text × FakeRedis
resolve_site_session session_id r = elim (get (site_key session_id) r) [
  | none ↦ (none, r)
  | some student_no ↦
      (some student_no, expire (site_key session_id) site_session_ttl_seconds false r)
]

abbrev pub session_keys : Text → List Text
session_keys session_id =
    site_key session_id
    ∷ selcrs_key session_id
    ∷ selcrs_hard_key session_id
    ∷ selections_key session_id
    ∷ regweb_key session_id
    ∷ regweb_hard_key session_id
    ∷ stusco_key session_id
    ∷ stusco_hard_key session_id
    ∷ grades_key session_id
    ∷ []

unfoldable pub delete_site_session : Text → FakeRedis → FakeRedis
delete_site_session session_id r = delete (session_keys session_id) r

-- `_store_jar_pair` and `_load_jar_pair`.
unfoldable pub store_jar_pair : Text → Text → Text → ℕ → ℕ → FakeRedis → FakeRedis
store_jar_pair key hard_key jar_payload sliding_ttl hard_ttl r =
    (set hard_key (codes "1") true (some hard_ttl)
      (set key jar_payload false (some sliding_ttl) r).1).1

unfoldable pub load_jar_pair : Text → Text → ℕ → FakeRedis → Option Text × FakeRedis
load_jar_pair key hard_key sliding_ttl r = elim (get hard_key r) [
  | none ↦ (none, delete (key ∷ []) r)
  | some anchor ↦ elim (get key r) [
    | none ↦ (none, r)
    | some payload ↦ (some payload, expire key sliding_ttl false r)
  ]
]

unfoldable pub store_selcrs : Text → Text → ℕ → ℕ → FakeRedis → FakeRedis
store_selcrs session_id = store_jar_pair (selcrs_key session_id) (selcrs_hard_key session_id)

unfoldable pub load_selcrs : Text → ℕ → FakeRedis → Option Text × FakeRedis
load_selcrs session_id = load_jar_pair (selcrs_key session_id) (selcrs_hard_key session_id)

unfoldable pub store_regweb : Text → Text → ℕ → ℕ → FakeRedis → FakeRedis
store_regweb session_id = store_jar_pair (regweb_key session_id) (regweb_hard_key session_id)

unfoldable pub load_regweb : Text → ℕ → FakeRedis → Option Text × FakeRedis
load_regweb session_id = load_jar_pair (regweb_key session_id) (regweb_hard_key session_id)

unfoldable pub store_stusco : Text → Text → ℕ → ℕ → FakeRedis → FakeRedis
store_stusco session_id = store_jar_pair (stusco_key session_id) (stusco_hard_key session_id)

unfoldable pub load_stusco : Text → ℕ → FakeRedis → Option Text × FakeRedis
load_stusco session_id = load_jar_pair (stusco_key session_id) (stusco_hard_key session_id)

abbrev pub is_some : Option Text → Bool
is_some none = false
is_some (some t) = true

unfoldable pub subsystem_availability : Text → FakeRedis → Bool × Bool
subsystem_availability session_id r =
    (is_some (get (regweb_key session_id) r), is_some (get (stusco_key session_id) r))
