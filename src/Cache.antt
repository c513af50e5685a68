-- ===== src/Cache.antt =====
-- server/internal/control/resolver.go and server/internal/guardrail/limitcache.go: what was resolved
-- is kept for a while. Both caches are one type here, with a value that is a tenant or limits.
-- A time is a number of nanoseconds. The clock is read at each place where the code reads it.
pub mod Backed
pub mod Repeat
mod Tests
use maping.Base.{
  ℕ, ◌+◌, ◌*◌, Bool, true, false, Option, none, some, List, [], ◌∷◌, length, keep, leb, ltb,
  if◌then◌else◌,
}
use maping.Base.Bytes.{Bytes, bytes_key}
use maping.Base.Assoc.{Map, lookup, insert}
use maping.Token
use maping.Token.{Base64}

unfoldable pub positive_ttl : ℕ
positive_ttl = 30 * 1000000000

unfoldable pub negative_ttl : ℕ
negative_ttl = 5 * 1000000000

unfoldable pub sweep_threshold : ℕ
sweep_threshold = 4096

unfoldable pub log_every : ℕ
log_every = 5 * 1000000000

pub record Entry (V : Type 0) : Type 0 where
  pub value : V
  pub ok : Bool
  pub expiry : ℕ

-- The readings of the clock in one call: for the read, for the expiry or the log, for the sweep.
pub record Clock : Type 0 where
  pub read : ℕ
  pub stored : ℕ
  pub swept : ℕ

module _ {V : Type 0} where
  unfoldable pub get_fresh : Map Bytes (Entry V) → Bytes → ℕ → Option (Entry V)
  get_fresh cache k now = elim (lookup k cache) [
    | none ↦ none
    | some e ↦ if ltb now e.expiry then some e else none
  ]

  unfoldable pub store : Map Bytes (Entry V) → Bytes → Entry V → ℕ → Map Bytes (Entry V)
  store cache k entry now =
      if leb sweep_threshold (length cache)
      then insert k entry (keep (λ (x : Bytes × Entry V). ltb now x.1.expiry) cache)
      else insert k entry cache

  -- The answer of a lookup, and until when it is kept.
  unfoldable pub entry_of : V → Bool → ℕ → Entry V
  entry_of v ok now = record {
    value = v;
    ok = ok;
    expiry = if ok then now + positive_ttl else now + negative_ttl;
  }

  -- CachedLimitProvider.Limits, with what the wrapped provider would answer.
  unfoldable pub limits :
      Map Bytes (Entry V) → Bytes → V → Bool → Clock → Map Bytes (Entry V) × V × Bool
  limits cache k v ok clock = elim (get_fresh cache k clock.read) [
    | some e ↦ (cache, e.value, e.ok)
    | none ↦ (store cache k (entry_of v ok clock.stored) clock.swept, v, ok)
  ]

-- What the database answers: no error and an answer, or an error.
pub data Answer : Type 0 where
  found : Bytes → Answer
  unknown : Answer
  failed : Answer

pub record Resolver : Type 0 where
  pub cache : Map Bytes (Entry Bytes)
  pub last_error_at : ℕ
  -- How many errors were written to the log.
  pub logged : ℕ

unfoldable pub log_db_error : Resolver → ℕ → Resolver
log_db_error r now =
    if ltb now (r.last_error_at + log_every)
    then r
    else record r { last_error_at = now; logged = r.logged + 1 }

module _ (b64 : Base64) (hash_key : Bytes → Bytes) where
  -- The digest under which a key is looked up, none for a key that does not decode.
  unfoldable pub digest : Bytes → Option Bytes
  digest key = elim (Token.decode b64 key) [ none ↦ none | some (o, s) ↦ some (hash_key s) ]

  -- The tenant is the empty string wherever `ok` is false.
  unfoldable pub resolve_digest : Resolver → Bytes → Answer → Clock → Resolver × Bytes × Bool
  resolve_digest r d answer clock = elim (get_fresh r.cache d clock.read) [
    | some e ↦ (r, e.value, e.ok)
    | none ↦ elim answer [
      | failed ↦ (log_db_error r clock.stored, [], false)
      | unknown ↦ (
        record r { cache = store r.cache d (entry_of [] false clock.stored) clock.swept },
        [],
        false,
      )
      | found t ↦
          (record r { cache = store r.cache d (entry_of t true clock.stored) clock.swept }, t, true)
    ]
  ]

  unfoldable pub resolve : Resolver → Bytes → Answer → Clock → Resolver × Bytes × Bool
  resolve r key answer clock = elim (digest key) [
    | none ↦ (r, [], false)
    | some d ↦ resolve_digest r d answer clock
  ]
