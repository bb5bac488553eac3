-- ===== src/Runtime/Cache/Live.antt =====
-- impl/lnpl/interp.py: how long a cached value is read back.
use linkly.Base.{
  ℕ, ◌+◌, ◌≡◌, refl, ◌∙◌, false, Option, none, some, ltb, if◌then◌else◌, arith, Option-cases, inl,
  inr,
}
use linkly.Base.Result.{ok}
use linkly.Base.Text.{Text, same_text}
use linkly.Base.Assoc.{lookup, set_key, lookup-set_key, lookup-set_other, lookup-drop_other}
use linkly.Runtime.Cache.{Cache, get, set, invalidate}

module _ {V : Type 0} where
  -- Calls that leave a key alone: reads of any key, and other keys set or invalidated. The number is
  -- that of the reads.
  pub data Calls (key : Text) : ℕ → Cache V → Cache V → Type 0 where
    done : {c : Cache V} → Calls key 0 c c
    reads :
        {n : ℕ} {c d : Cache V} (now : ℕ) (k : Text)
        → Calls key n (get c now k).0 d
        → Calls key (n + 1) c d
    sets :
        {n : ℕ} {c m d : Cache V} (now : ℕ) (k : Text) (value : V) (ttl : Option ℕ)
        → same_text k key ≡ false
        → set c now k value ttl ≡ ok m
        → Calls key n m d
        → Calls key n c d
    invalidates :
        {n : ℕ} {c d : Cache V} (k : Text)
        → same_text k key ≡ false
        → Calls key n (invalidate c k) d
        → Calls key n c d

  get-store : (c : Cache V) (now : ℕ) (k : Text) → (get c now k).0.store ≡ c.store
  unfolding get
  get-store c now k = elim (Option-cases (lookup k c.store)) [
    | inl missing ↦ rw missing refl
    | inr ((v, expires), found) ↦ ground arith
  ]

  get-count :
      (c : Cache V) (now : ℕ) (k : Text)
      → (get c now k).0.hits + (get c now k).0.misses ≡ c.hits + c.misses + 1
  unfolding get
  get-count c now k = elim (Option-cases (lookup k c.store)) [
    | inl missing ↦ ground arith
    | inr ((v, expires), found) ↦ ground arith
  ]

  set-other :
      (c m : Cache V) (now : ℕ) (k : Text) (value : V) (ttl : Option ℕ) (key : Text)
      → same_text k key ≡ false
      → set c now k value ttl ≡ ok m
      → (lookup key m.store ≡ lookup key c.store) × (m.hits + m.misses ≡ c.hits + c.misses)
  unfolding set
  set-other c m now k value none key apart e = cc
  set-other c m now k value (some ttl) key apart e =
      let same : m ≡ record c { store = set_key k (value, now + ttl) c.store } = cc in
      rw same (lookup-set_other key k (value, now + ttl) c.store apart, refl)

  calls-keep :
      {key : Text} {n : ℕ} {c d : Cache V}
      → Calls key n c d
      → (lookup key d.store ≡ lookup key c.store) × (d.hits + d.misses ≡ c.hits + c.misses + n)
  unfolding invalidate
  calls-keep done = (refl, omega arith)
  calls-keep {key} {c = c} (reads now k rest) =
      let (kept, counted) = calls-keep rest in
      (rw (get-store c now k) at kept, omega (arith, counted, get-count c now k))
  calls-keep {key} {c = c} (sets {m = m} now k value ttl apart e rest) =
      let (kept, counted) = calls-keep rest in
      let (untouched, same) = set-other c m now k value ttl key apart e in
      (kept ∙ untouched, omega (arith, counted, same))
  calls-keep {key} {c = c} (invalidates k apart rest) =
      let (kept, counted) = calls-keep rest in
      (kept ∙ lookup-drop_other key k c.store apart, counted)

  -- A value that was set with a TTL is read back exactly until the TTL has passed, whatever was read
  -- and whatever happened to other keys in between; every read counts as one hit or one miss.
  pub get-set :
      (c m d : Cache V) (now later : ℕ) (key : Text) (value : V) (ttl n : ℕ)
      → set c now key value (some ttl) ≡ ok m
      → Calls key n m d
      → ((get d later key).1 ≡ (if ltb later (now + ttl) then some value else none))
        × (d.hits + d.misses ≡ m.hits + m.misses + n)
  unfolding get set
  get-set c m d now later key value ttl n e calls =
      let (kept, counted) = calls-keep calls in
      let same : m ≡ record c { store = set_key key (value, now + ttl) c.store } = cc in
      let found : lookup key d.store ≡ some (value, now + ttl) =
        kept ∙ rw same (lookup-set_key key (value, now + ttl) c.store) in
      (rw found (ground arith), counted)
