-- ===== src/Cache/Repeat.antt =====
-- The same question again, and the same secret under another origin.
use maping.Base.{
  ℕ, ◌+◌, ◌≤◌, ◌<◌, ◌≡◌, refl, ◌∙◌, sym, Bool, false, none, some, keep, ltb, arith, inl,
}
use maping.Base.Bytes.{Bytes, bytes_key, is_empty}
use maping.Base.Assoc.{Map, lookup, lookup-insert}
use maping.Token
use maping.Token.{Base64}
use maping.Token.Split.{NoDot}
use maping.Token.Round.{decode-encode}
use maping.Cache.{
  Entry, Clock, Resolver, Answer, positive_ttl, negative_ttl, get_fresh, store, entry_of, limits,
  digest, resolve, resolve_digest,
}

module _ {V : Type 0} where
  lookup-store :
      (m : Map Bytes (Entry V)) (k : Bytes) (e : Entry V) (now : ℕ)
      → lookup k (store m k e now) ≡ some e
  unfolding store
  lookup-store m k e now =
      let p = λ (x : Bytes × Entry V). ltb now x.1.expiry in
      ground (arith, lookup-insert k k e m, lookup-insert k k e (keep p m))

  get_fresh-hit :
      (m : Map Bytes (Entry V)) (k : Bytes) (e : Entry V) (now : ℕ)
      → lookup k m ≡ some e
      → now < e.expiry
      → get_fresh m k now ≡ some e
  unfolding get_fresh
  get_fresh-hit m k e now h lt = rw (h, get_fresh) (ground arith)

  entry_of-expiry : (v : V) (ok : Bool) (at : ℕ) → at + negative_ttl ≤ (entry_of v ok at).expiry
  unfolding entry_of positive_ttl negative_ttl
  entry_of-expiry v ok at = ground arith

  get_fresh-store :
      (m : Map Bytes (Entry V)) (k : Bytes) (v : V) (ok : Bool) (at now later : ℕ)
      → later < at + negative_ttl
      → get_fresh (store m k (entry_of v ok at) now) k later ≡ some (entry_of v ok at)
  get_fresh-store m k v ok at now later h =
      get_fresh-hit (store m k (entry_of v ok at) now) k (entry_of v ok at) later
        (lookup-store m k (entry_of v ok at) now) (omega (arith, h, entry_of-expiry v ok at))

  limits-hit :
      (m : Map Bytes (Entry V)) (k : Bytes) (v : V) (ok : Bool) (clock : Clock) (e : Entry V)
      → get_fresh m k clock.read ≡ some e
      → limits m k v ok clock ≡ (m, e.value, e.ok)
  unfolding limits
  limits-hit m k v ok clock e h = rw (h, limits) refl

  limits-miss :
      (m : Map Bytes (Entry V)) (k : Bytes) (v : V) (ok : Bool) (clock : Clock)
      → get_fresh m k clock.read ≡ none
      → limits m k v ok clock ≡ (store m k (entry_of v ok clock.stored) clock.swept, v, ok)
  unfolding limits
  limits-miss m k v ok clock h = rw (h, limits) refl

  -- What a limits cache answered it answers again for five seconds at least, whatever it held
  -- before and whatever the wrapped provider would answer by then; the provider is not asked, and
  -- the cache stays as it is.
  pub limits_repeat :
      (m : Map Bytes (Entry V)) (k : Bytes) (v w : V) (ok then_ : Bool) (clock clock' : Clock)
      → get_fresh m k clock.read ≡ none
      → clock'.read < clock.stored + negative_ttl
      → limits (limits m k v ok clock).0 k w then_ clock' ≡ ((limits m k v ok clock).0, v, ok)
  unfolding entry_of
  limits_repeat m k v w ok then_ clock clock' e h =
      let kept = store m k (entry_of v ok clock.stored) clock.swept in
      let again = get_fresh-store m k v ok clock.stored clock.swept clock'.read h in
      rw (limits-miss m k v ok clock e)
        (limits-hit kept k w then_ clock' (entry_of v ok clock.stored) again)

module _ (b64 : Base64) (hash_key : Bytes → Bytes) where
  digest-encode :
      (o secret : Bytes)
      → ((s : Bytes) → b64.decode (b64.encode s) ≡ some s)
      → ((s : Bytes) → NoDot (b64.encode s))
      → is_empty secret ≡ false
      → is_empty o ≡ false
      → digest b64 hash_key (Token.encode b64 o secret) ≡ some (hash_key secret)
  unfolding digest
  digest-encode o secret back clean h ho =
      rw (decode-encode b64 o secret back clean h (inl ho), digest) refl

  resolve-digest :
      (r : Resolver) (key d : Bytes) (answer : Answer) (clock : Clock)
      → digest b64 hash_key key ≡ some d
      → resolve b64 hash_key r key answer clock ≡ resolve_digest b64 hash_key r d answer clock
  unfolding resolve
  resolve-digest r key d answer clock e = rw (e, resolve) refl

  -- The origin in a key never affects what the key resolves to: two keys with one secret and
  -- origins that are not empty resolve alike, in every state and whatever the database answers.
  pub resolve_origin :
      (r : Resolver) (o p secret : Bytes) (answer : Answer) (clock : Clock)
      → ((s : Bytes) → b64.decode (b64.encode s) ≡ some s)
      → ((s : Bytes) → NoDot (b64.encode s))
      → is_empty secret ≡ false
      → is_empty o ≡ false
      → is_empty p ≡ false
      → resolve b64 hash_key r (Token.encode b64 o secret) answer clock
        ≡ resolve b64 hash_key r (Token.encode b64 p secret) answer clock
  resolve_origin r o p secret answer clock back clean h ho hp =
      let d = hash_key secret in
      let of_o = digest-encode o secret back clean h ho in
      let of_p = digest-encode p secret back clean h hp in
      resolve-digest r (Token.encode b64 o secret) d answer clock of_o
      ∙ sym (resolve-digest r (Token.encode b64 p secret) d answer clock of_p)
