-- ===== src/Selections/Store.antt =====
-- backend/app/selections/store.py: the cached list of a session.
use nsysu_crs.Common.{Text, false, Option, none, some, List, [], ◌∷◌}
use nsysu_crs.Selections.{SelectionItem}
use nsysu_crs.Auth.Redis.{FakeRedis, get, set, delete}
use nsysu_crs.Auth.Sessions.{selections_key, site_session_ttl_seconds}

pub record SelectionsSnapshot : Type 0 where
  pub synced_at : Text
  pub items : List SelectionItem

-- The JSON of a snapshot is a parameter: `none` is a payload that does not validate.
pub record SnapshotJson : Type 0 where
  pub dump : SelectionsSnapshot → Text
  pub validate : Text → Option SelectionsSnapshot

module _ (json : SnapshotJson) where
  unfoldable pub load_snapshot : Text → FakeRedis → Option SelectionsSnapshot
  load_snapshot session_id r = elim (get (selections_key session_id) r) [
    | none ↦ none
    | some payload ↦ json.validate payload
  ]

  unfoldable pub store_snapshot : Text → SelectionsSnapshot → FakeRedis → FakeRedis
  store_snapshot session_id snapshot r =
      (set (selections_key session_id) (json.dump snapshot) false (some site_session_ttl_seconds)
        r).1

unfoldable pub delete_selections : Text → FakeRedis → FakeRedis
delete_selections session_id r = delete (selections_key session_id ∷ []) r
