-- ===== src/Auth/Redis.antt =====
-- backend/tests/fake_redis.py: the in-memory store that satisfies the AuthRedis protocol of
-- backend/app/auth/redis_iface.py. A dict is a function from names; times are whole seconds, and the
-- store's clock is the one that the state machines read.
pub mod Commands
use nsysu_crs.Common.{
  ℕ, ◌+◌, Text, codes, text_eq, Bool, true, false, not, ◌&&◌, Option, none, some, List, [], ◌∷◌,
  ◌++◌, String, any, keep, length, leb, ltb, if◌then◌else◌,
}
use nsysu_crs.Common.Decimal.{decimal, digits_value}

-- A value with the time it expires at, if it does.
abbrev pub Entry : Type 0
Entry = Text × Option ℕ

pub record FakeRedis : Type 0 where
  pub now : ℕ
  pub values : Text → Option Entry
  pub zsets : Text → List (Text × ℕ)
  pub lists : Text → List Text

-- d[name] = x, and d.pop(name, None) with the empty `x`.
abbrev pub put : {A : Type 0} → Text → A → (Text → A) → Text → A
put name x d other = if text_eq other name then x else d other

-- What `_purge` leaves of an entry.
abbrev pub alive : ℕ → Option Entry → Option Entry
alive now none = none
alive now (some (value, none)) = some (value, none)
alive now (some (value, some expire_at)) =
    if leb expire_at now then none else some (value, some expire_at)

abbrev pub value_of : Option Entry → Option Text
value_of none = none
value_of (some (value, expire_at)) = some value

abbrev pub entry : Text → FakeRedis → Option Entry
entry name r = alive r.now (r.values name)

unfoldable pub get : Text → FakeRedis → Option Text
get name r = value_of (entry name r)

unfoldable pub getdel : Text → FakeRedis → Option Text × FakeRedis
getdel name r = (value_of (entry name r), record r { values = put name none r.values })

abbrev pub expiry : ℕ → Option ℕ → Option ℕ
expiry now none = none
expiry now (some ex) = some (now + ex)

abbrev pub is_there : Option Entry → Bool
is_there none = false
is_there (some e) = true

abbrev pub write : Text → Text → Option ℕ → FakeRedis → FakeRedis
write name value ex r = record r {
  values = put name (some (value, expiry r.now ex)) r.values;
  zsets = put name [] r.zsets;
  lists = put name [] r.lists;
}

-- `set(name, value, nx=nx, ex=ex)`, and whether it set the value.
unfoldable pub set : Text → Text → Bool → Option ℕ → FakeRedis → Bool × FakeRedis
set name value nx ex r =
    if nx && is_there (entry name r) then (false, r) else (true, write name value ex r)

abbrev pub count_of : Option Entry → ℕ
count_of none = 0
count_of (some (value, expire_at)) = digits_value value

abbrev pub expiry_of : Option Entry → Option ℕ
expiry_of none = none
expiry_of (some (value, expire_at)) = expire_at

unfoldable pub incr : Text → FakeRedis → ℕ × FakeRedis
incr name r =
    let count = count_of (entry name r) + 1 in
    (
      count,
      record r { values = put name (some (decimal count, expiry_of (entry name r))) r.values },
    )

unfoldable pub rpush : Text → List Text → FakeRedis → FakeRedis
rpush name more r = record r {
  values = put name none r.values;
  lists = put name (r.lists name ++ more) r.lists;
}

-- A list without its last element, and that element.
unfoldable pub pop_last : List Text → Option (List Text × Text)
pop_last [] = none
pop_last (t ∷ ts) = elim (pop_last ts) [
  | none ↦ some ([], t)
  | some (before, last) ↦ some (t ∷ before, last)
]

-- The first of the lists that is not empty gives its last element, with the list's name.
unfoldable pub brpop : List Text → FakeRedis → Option (Text × Text) × FakeRedis
brpop [] r = (none, r)
brpop (key ∷ keys) r = elim (pop_last (r.lists key)) [
  | none ↦ brpop keys r
  | some (before, last) ↦ (some (key, last), record r { lists = put key before r.lists })
]

unfoldable pub delete : List Text → FakeRedis → FakeRedis
delete names r = record r {
  values = λ other. if any (text_eq other) names then none else r.values other;
  zsets = λ other. if any (text_eq other) names then [] else r.zsets other;
  lists = λ other. if any (text_eq other) names then [] else r.lists other;
}

abbrev pub extended : ℕ → ℕ → Bool → Option Entry → Option Entry
extended now seconds nx none = none
extended now seconds nx (some (value, none)) = some (value, some (now + seconds))
extended now seconds true (some (value, some expire_at)) = some (value, some expire_at)
extended now seconds false (some (value, some expire_at)) = some (value, some (now + seconds))

unfoldable pub expire : Text → ℕ → Bool → FakeRedis → FakeRedis
expire name seconds nx r = record r {
  values = put name (extended r.now seconds nx (entry name r)) r.values;
}

unfoldable pub zadd : Text → Text → ℕ → FakeRedis → FakeRedis
zadd name member score r = record r {
  values = put name none r.values;
  zsets =
      put name (keep (λ e. not (text_eq e.0 member)) (r.zsets name) ++ ((member, score) ∷ []))
        r.zsets;
}

-- From minus infinity to the given score.
unfoldable pub zremrangebyscore : Text → ℕ → FakeRedis → FakeRedis
zremrangebyscore name max r = record r {
  zsets = put name (keep (λ e. ltb max e.1) (r.zsets name)) r.zsets;
}

unfoldable pub zcard : Text → FakeRedis → ℕ
zcard name r = length (r.zsets name)

-- Time passes.
unfoldable pub at_time : ℕ → FakeRedis → FakeRedis
at_time now r = record r { now = now }
