-- ===== src/Runtime/Cache.antt =====
-- impl/lnpl/interp.py: `FakeCache`, with the clock's `now` as an argument.
pub mod Live
use linkly.Base.{ℕ, ◌+◌, ◌≡◌, Bool, true, false, Option, none, some, List, [], leb, if◌then◌else◌}
use linkly.Base.Result.{Result, ok, err}
use linkly.Base.Text.{Text}
use linkly.Base.Assoc.{Assoc, lookup, set_key, drop_key}

-- The attributes `store`, `hits` and `misses`; an entry has its value and `expires_at_ms`.
pub record Cache (V : Type 0) : Type 0 where
  pub store : Assoc (V × ℕ)
  pub hits : ℕ
  pub misses : ℕ

pub data CacheError : Type 0 where
  no_ttl : CacheError

module _ {V : Type 0} where
  -- `__init__`
  abbrev pub new_cache : Cache V
  new_cache = record { store = []; hits = 0; misses = 0 }

  abbrev pub miss : Cache V → Cache V × Option V
  miss c = (record c { misses = c.misses + 1 }, none)

  abbrev pub answer : Option (V × ℕ) → ℕ → Cache V → Cache V × Option V
  answer none now c = miss c
  answer (some (value, expires)) now c =
      if leb expires now then miss c else (record c { hits = c.hits + 1 }, some value)

  -- `get`
  unfoldable pub get : Cache V → ℕ → Text → Cache V × Option V
  get c now key = answer (lookup key c.store) now c

  -- `set`
  unfoldable pub set : Cache V → ℕ → Text → V → Option ℕ → Result CacheError (Cache V)
  set c now key value none = err no_ttl
  set c now key value (some ttl) = ok (record c { store = set_key key (value, now + ttl) c.store })

  -- `invalidate`
  unfoldable pub invalidate : Cache V → Text → Cache V
  invalidate c key = record c { store = drop_key key c.store }
