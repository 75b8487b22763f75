-- ===== src/Auth/Sessions/Ends.antt =====
-- How the jars and the session of backend/app/auth/sessions.py come to an end.
use nsysu_crs.Common.{
  ℕ, ◌+◌, ◌≤◌, Text, codes, text_eq, text_eq_refl, ◌≡◌, refl, ◌∙◌, true, false, none, some, List,
  [], ◌∷◌, any, leb, arith, inl, inr, Option-cases,
}
use nsysu_crs.Auth.Redis.{FakeRedis, entry, get, set, expire, delete, at_time, is_there}
use nsysu_crs.Auth.Redis.Commands.{get-delete}
use nsysu_crs.Auth.Sessions.{
  site_key, selcrs_key, selcrs_hard_key, regweb_key, regweb_hard_key, stusco_key, stusco_hard_key,
  resolve_site_session, session_keys, delete_site_session, store_jar_pair, load_jar_pair,
  store_selcrs, load_selcrs, load_regweb, load_stusco,
}

no_jar :
    (key hard_key : Text) (sliding_ttl : ℕ) (r : FakeRedis)
    → get hard_key r ≡ none
    → (load_jar_pair key hard_key sliding_ttl r).0 ≡ none
unfolding load_jar_pair
no_jar key hard_key sliding_ttl r h = rw (h, load_jar_pair) refl

lapsed :
    (name value : Text) (now deadline : ℕ) (r : FakeRedis)
    → r.values name ≡ some (value, some deadline)
    → deadline ≤ now
    → get name (at_time now r) ≡ none
unfolding get at_time
lapsed name value now deadline r h k =
    let late : leb deadline now ≡ true = ground arith in rw (h, late) refl

module _ (key hard_key : Text) (sliding_ttl : ℕ) where
  -- The loads at the given times, one after the other.
  loads : List ℕ → FakeRedis → FakeRedis
  loads [] r = r
  loads (now ∷ times) r = loads times (load_jar_pair key hard_key sliding_ttl (at_time now r)).1

  load_keeps :
      (r : FakeRedis)
      → text_eq hard_key key ≡ false
      → (load_jar_pair key hard_key sliding_ttl r).1.values hard_key ≡ r.values hard_key
  unfolding load_jar_pair delete expire
  load_keeps r h = elim (Option-cases (get hard_key r)) [
    | inl e ↦ rw (e, load_jar_pair, h) refl
    | inr (anchor, e) ↦ elim (Option-cases (get key r)) [
      | inl f ↦ rw (e, load_jar_pair, f) refl
      | inr (payload, f) ↦ rw (e, load_jar_pair, f, h) refl
    ]
  ]

  loads_keep :
      (times : List ℕ) (r : FakeRedis)
      → text_eq hard_key key ≡ false
      → (loads times r).values hard_key ≡ r.values hard_key
  unfolding loads at_time
  loads_keep [] r h = refl
  loads_keep (now ∷ times) r h =
      loads_keep times (load_jar_pair key hard_key sliding_ttl (at_time now r)).1 h
      ∙ load_keeps (at_time now r) h

  anchored :
      (r : FakeRedis) (hard_ttl : ℕ)
      → r.values hard_key ≡ none
      → (set hard_key (codes "1") true (some hard_ttl) r).1.values hard_key
        ≡ some (codes "1", some (r.now + hard_ttl))
  unfolding set
  anchored r hard_ttl f =
      let free : is_there (entry hard_key r) ≡ false = rw f refl in
      rw (free, text_eq_refl hard_key) refl

  stored_anchor :
      (jar_payload : Text) (hard_ttl : ℕ) (r : FakeRedis)
      → text_eq hard_key key ≡ false
      → r.values hard_key ≡ none
      → (store_jar_pair key hard_key jar_payload sliding_ttl hard_ttl r).values hard_key
        ≡ some (codes "1", some (r.now + hard_ttl))
  unfolding store_jar_pair set
  stored_anchor jar_payload hard_ttl r h f =
      anchored (set key jar_payload false (some sliding_ttl) r).1 hard_ttl (rw h f)

  late_load :
      (now deadline : ℕ) (r : FakeRedis)
      → r.values hard_key ≡ some (codes "1", some deadline)
      → deadline ≤ now
      → (load_jar_pair key hard_key sliding_ttl (at_time now r)).0 ≡ none
  late_load now deadline r h k =
      no_jar key hard_key sliding_ttl (at_time now r)
        (lapsed hard_key (codes "1") now deadline r h k)

  expired_load :
      (jar_payload : Text) (hard_ttl now : ℕ) (times : List ℕ) (r : FakeRedis)
      → text_eq hard_key key ≡ false
      → r.values hard_key ≡ none
      → r.now + hard_ttl ≤ now
      → (load_jar_pair key hard_key sliding_ttl (
          at_time now
            (loads times (store_jar_pair key hard_key jar_payload sliding_ttl hard_ttl r)))).0
        ≡ none
  expired_load jar_payload hard_ttl now times r h f k =
      late_load now (r.now + hard_ttl)
        (loads times (store_jar_pair key hard_key jar_payload sliding_ttl hard_ttl r))
        (loads_keep times (store_jar_pair key hard_key jar_payload sliding_ttl hard_ttl r) h
          ∙ stored_anchor jar_payload hard_ttl r h f)
        k

-- The loads of a session's school jar at the given times.
unfoldable pub selcrs_loads : Text → ℕ → List ℕ → FakeRedis → FakeRedis
unfolding loads
selcrs_loads session_id sliding_ttl times r =
    loads (selcrs_key session_id) (selcrs_hard_key session_id) sliding_ttl times r

-- A jar stored at the login of a fresh session is not served from `hard_ttl` seconds later on, however
-- often and whenever it was loaded before.
pub load_selcrs_expires :
    (session_id jar_payload : Text) (sliding_ttl hard_ttl now : ℕ) (times : List ℕ) (r : FakeRedis)
    → r.values (selcrs_hard_key session_id) ≡ none
    → r.now + hard_ttl ≤ now
    → (load_selcrs session_id sliding_ttl (
        at_time now (
          selcrs_loads session_id sliding_ttl times
            (store_selcrs session_id jar_payload sliding_ttl hard_ttl r)))).0
      ≡ none
unfolding load_selcrs store_selcrs selcrs_loads selcrs_key selcrs_hard_key text_eq
load_selcrs_expires session_id jar_payload sliding_ttl hard_ttl now times r f k =
    expired_load (selcrs_key session_id) (selcrs_hard_key session_id) sliding_ttl jar_payload
      hard_ttl now times r refl f k

-- After a logout the session has no owner and none of the three jars is served, at any later time.
pub delete_site_session-ends :
    (session_id : Text) (sliding_ttl now : ℕ) (r : FakeRedis)
    → ((resolve_site_session session_id (at_time now (delete_site_session session_id r))).0 ≡ none)
      × ((load_selcrs session_id sliding_ttl (at_time now (delete_site_session session_id r))).0
          ≡ none)
      × ((load_regweb session_id sliding_ttl (at_time now (delete_site_session session_id r))).0
          ≡ none)
      × ((load_stusco session_id sliding_ttl (at_time now (delete_site_session session_id r))).0
          ≡ none)
unfolding resolve_site_session load_selcrs load_regweb load_stusco delete_site_session
delete_site_session-ends session_id sliding_ttl now r = (
  rw
      (
        gone (site_key session_id) (rw (text_eq_refl (site_key session_id)) refl),
        resolve_site_session,
      )
      refl,
  no_jar (selcrs_key session_id) (selcrs_hard_key session_id) sliding_ttl
      (at_time now (delete (session_keys session_id) r))
      (gone (selcrs_hard_key session_id)
        (ground (arith, text_eq_refl (selcrs_hard_key session_id)))),
  no_jar (regweb_key session_id) (regweb_hard_key session_id) sliding_ttl
      (at_time now (delete (session_keys session_id) r))
      (gone (regweb_hard_key session_id)
        (ground (arith, text_eq_refl (regweb_hard_key session_id)))),
  no_jar (stusco_key session_id) (stusco_hard_key session_id) sliding_ttl
      (at_time now (delete (session_keys session_id) r))
      (gone (stusco_hard_key session_id)
        (ground (arith, text_eq_refl (stusco_hard_key session_id)))),
)
  where
    gone :
        (name : Text)
        → any (text_eq name) (session_keys session_id) ≡ true
        → get name (at_time now (delete (session_keys session_id) r)) ≡ none
    gone name h = get-delete name (session_keys session_id) now r h
