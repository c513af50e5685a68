-- ===== src/Cache/Backed.antt =====
-- What a cache answers was answered by a lookup, not long ago.
use maping.Base.{
  ℕ, ◌+◌, ◌<◌, ◌≡◌, refl, ap, Bool, true, false, none, some, List, [], ◌∷◌, keep, ltb, arith,
  Option-cases, inl, inr, ◌⊎◌,
}
use maping.Base.Bytes.{Bytes, bytes_key}
use maping.Base.Assoc.{Map, All-insert, All-lookup}
use maping.Base.{All}
use maping.Token.{Base64}
use maping.Cache.{
  Entry, Clock, Resolver, Answer, found, unknown, failed, positive_ttl, negative_ttl, get_fresh,
  store, entry_of, digest, resolve_digest, resolve, log_db_error,
}

module _ {V : Type 0} (P : Bytes × Entry V → Type 0) where
  All-keep : (p : Bytes × Entry V → Bool) (m : Map Bytes (Entry V)) → All P m → All P (keep p m)
  All-keep p [] a = tt
  All-keep p (x ∷ m) a = ground (arith, All-keep p m a.1, a.0)

  pub store-All :
      (m : Map Bytes (Entry V)) (k : Bytes) (e : Entry V) (now : ℕ)
      → P (k, e)
      → All P m
      → All P (store m k e now)
  unfolding store
  store-All m k e now h a =
      let p = λ (x : Bytes × Entry V). ltb now x.1.expiry in
      ground (arith, All-insert P k e m h a, All-insert P k e (keep p m) h (All-keep p m a))

  pub get_fresh-All :
      (m : Map Bytes (Entry V)) (k : Bytes) (now : ℕ) (e : Entry V)
      → All P m
      → get_fresh m k now ≡ some e
      → P (k, e) × (now < e.expiry)
  unfolding get_fresh
  get_fresh-All m k now e a h = ground (arith, All-lookup P k e m, a)

abbrev pub Any : {A : Type 0} → (A → Type 0) → List A → Type 0
Any P [] = ⊥
Any P (x ∷ xs) = P x ⊎ Any P xs

pub record Request : Type 0 where
  pub key : Bytes
  pub answer : Answer
  pub clock : Clock

module _ (b64 : Base64) (hash_key : Bytes → Bytes) where
  -- A resolver after some requests, the latest first.
  abbrev pub after : List Request → Resolver
  after [] = record { cache = []; last_error_at = 0; logged = 0 }
  after (x ∷ past) = (resolve b64 hash_key (after past) x.key x.answer x.clock).0

  -- The lookup that a request may have made tells an entry.
  abbrev Told : Request → Entry Bytes → Type 0
  Told x e =
      ((e.ok ≡ true) × (x.answer ≡ found e.value) × (e.expiry ≡ x.clock.stored + positive_ttl))
      ⊎ ((e.ok ≡ false) × (x.answer ≡ unknown) × (e.expiry ≡ x.clock.stored + negative_ttl))

  abbrev Backed : List Request → Bytes × Entry Bytes → Type 0
  Backed past (k, e) = Any (λ x. (digest b64 hash_key x.key ≡ some k) × Told x e) past

  weaken :
      (x : Request) (past : List Request) (m : Map Bytes (Entry Bytes))
      → All (Backed past) m
      → All (Backed (x ∷ past)) m
  weaken x past [] a = tt
  weaken x past (e ∷ m) a = (inr a.0, weaken x past m a.1)

  abbrev ask : Bytes → Answer → Clock → Request
  ask key answer clock = record { key = key; answer = answer; clock = clock }

  log-cache : (r : Resolver) (now : ℕ) → (log_db_error r now).cache ≡ r.cache
  unfolding log_db_error
  log-cache r now = ground arith

  -- A miss: the database is asked, and what it says is stored.
  miss-Backed :
      (r : Resolver) (key : Bytes) (answer : Answer) (clock : Clock) (past : List Request)
      (d : Bytes)
      → digest b64 hash_key key ≡ some d
      → All (Backed past) r.cache
      → get_fresh r.cache d clock.read ≡ none
      → All
          (Backed (ask key answer clock ∷ past))
          (resolve_digest b64 hash_key r d answer clock).0.cache
  unfolding resolve_digest entry_of
  miss-Backed r key (found t) clock past d h a e =
      let kept = weaken (ask key (found t) clock) past r.cache a in
      rw (e, resolve_digest)
        (store-All (Backed (ask key (found t) clock ∷ past)) r.cache d
          (entry_of t true clock.stored) clock.swept (inl (h, inl (refl, refl, refl))) kept)
  miss-Backed r key unknown clock past d h a e =
      let kept = weaken (ask key unknown clock) past r.cache a in
      rw (e, resolve_digest)
        (store-All (Backed (ask key unknown clock ∷ past)) r.cache d
          (entry_of [] false clock.stored) clock.swept (inl (h, inr (refl, refl, refl))) kept)
  miss-Backed r key failed clock past d h a e =
      let kept = weaken (ask key failed clock) past r.cache a in
      rw (e, resolve_digest) (rw (log-cache r clock.stored) kept)

  resolve_digest-Backed :
      (r : Resolver) (x : Request) (past : List Request) (d : Bytes)
      → digest b64 hash_key x.key ≡ some d
      → All (Backed past) r.cache
      → All (Backed (x ∷ past)) (resolve_digest b64 hash_key r d x.answer x.clock).0.cache
  unfolding resolve_digest
  resolve_digest-Backed r x past d h a = elim (Option-cases (get_fresh r.cache d x.clock.read)) [
    | inl e ↦ miss-Backed r x.key x.answer x.clock past d h a e
    | inr (f, e) ↦ rw (e, resolve_digest) (weaken x past r.cache a)
  ]

  resolve-some :
      (r : Resolver) (x : Request) (d : Bytes)
      → digest b64 hash_key x.key ≡ some d
      → resolve b64 hash_key r x.key x.answer x.clock
        ≡ resolve_digest b64 hash_key r d x.answer x.clock
  unfolding resolve
  resolve-some r x d e = rw (e, resolve) refl

  resolve-none :
      (r : Resolver) (x : Request)
      → digest b64 hash_key x.key ≡ none
      → resolve b64 hash_key r x.key x.answer x.clock ≡ (r, [], false)
  unfolding resolve
  resolve-none r x e = rw (e, resolve) refl

  resolve-Backed :
      (r : Resolver) (x : Request) (past : List Request)
      → All (Backed past) r.cache
      → All (Backed (x ∷ past)) (resolve b64 hash_key r x.key x.answer x.clock).0.cache
  resolve-Backed r x past a = elim (Option-cases (digest b64 hash_key x.key)) [
    | inl e ↦ rw (resolve-none r x e) (weaken x past r.cache a)
    | inr (d, e) ↦ rw (resolve-some r x d e) (resolve_digest-Backed r x past d e a)
  ]

  after-Backed : (past : List Request) → All (Backed past) (after past).cache
  after-Backed [] = tt
  after-Backed (x ∷ past) = resolve-Backed (after past) x past (after-Backed past)

  -- A request earlier that the database answered with the tenant, and not long ago.
  abbrev pub Confirmed : Bytes → Bytes → ℕ → List Request → Type 0
  Confirmed d t now past =
      Any
        (λ x.
          (digest b64 hash_key x.key ≡ some d)
          × (x.answer ≡ found t)
          × (now < x.clock.stored + positive_ttl))
        past

  confirm :
      (d : Bytes) (e : Entry Bytes) (now : ℕ) (past : List Request)
      → Backed past (d, e)
      → e.ok ≡ true
      → now < e.expiry
      → Confirmed d e.value now past
  confirm d e now [] (b) h lt = absurd b
  confirm d e now (x ∷ past) (inl (same, inl (_, told, at))) h lt =
      inl (same, told, omega (arith, at, lt))
  confirm d e now (x ∷ past) (inl (same, inr (no_, _, _))) h lt = cc (no_, h)
  confirm d e now (x ∷ past) (inr b) h lt = inr (confirm d e now past b h lt)

  miss-found :
      (r : Resolver) (d : Bytes) (answer : Answer) (clock : Clock) (t : Bytes)
      → get_fresh r.cache d clock.read ≡ none
      → (resolve_digest b64 hash_key r d answer clock).1 ≡ t
      → (resolve_digest b64 hash_key r d answer clock).2 ≡ true
      → answer ≡ found t
  unfolding resolve_digest
  miss-found r d (found u) clock t e et ok =
      let here : u ≡ t = rw (e, resolve_digest) at et in ap found here
  miss-found r d unknown clock t e et ok =
      let no_ : false ≡ true = rw (e, resolve_digest) at ok in cc no_
  miss-found r d failed clock t e et ok =
      let no_ : false ≡ true = rw (e, resolve_digest) at ok in cc no_

  hit-answer :
      (r : Resolver) (d : Bytes) (answer : Answer) (clock : Clock) (e : Entry Bytes)
      → get_fresh r.cache d clock.read ≡ some e
      → resolve_digest b64 hash_key r d answer clock ≡ (r, e.value, e.ok)
  unfolding resolve_digest
  hit-answer r d answer clock e h = rw (h, resolve_digest) refl

  accepted_digest :
      (r : Resolver) (x : Request) (past : List Request) (d t : Bytes)
      → All (Backed past) r.cache
      → (resolve_digest b64 hash_key r d x.answer x.clock).1 ≡ t
      → (resolve_digest b64 hash_key r d x.answer x.clock).2 ≡ true
      → (x.answer ≡ found t) ⊎ Confirmed d t x.clock.read past
  accepted_digest r x past d t a et ok = elim (Option-cases (get_fresh r.cache d x.clock.read)) [
    | inl e ↦ inl (miss-found r d x.answer x.clock t e et ok)
    | inr (f, e) ↦
        let same = hit-answer r d x.answer x.clock f e in
        let (b, lt) = get_fresh-All (Backed past) r.cache d x.clock.read f a e in
        let ok' : f.ok ≡ true = rw same at ok in
        let t' : f.value ≡ t = rw same at et in
        inr (rw (← t') (confirm d f x.clock.read past b ok' lt))
  ]

  -- A key is accepted for a tenant, after any requests, only if it decodes and the database named
  -- the tenant for its digest: now, or in an earlier request, whose answer was stored less than
  -- thirty seconds before this one read the clock. So a revoked key is rejected after thirty
  -- seconds at the latest, and an error of the database lets no key in.
  pub accepted-Confirmed :
      (past : List Request) (x : Request) (t : Bytes)
      → (resolve b64 hash_key (after past) x.key x.answer x.clock).1 ≡ t
      → (resolve b64 hash_key (after past) x.key x.answer x.clock).2 ≡ true
      → (d : Bytes) × (digest b64 hash_key x.key ≡ some d)
        × ((x.answer ≡ found t) ⊎ Confirmed d t x.clock.read past)
  accepted-Confirmed past x t et ok = elim (Option-cases (digest b64 hash_key x.key)) [
    | inl e ↦ let no_ : false ≡ true = rw (resolve-none (after past) x e) at ok in cc no_
    | inr (d, e) ↦
        let same = resolve-some (after past) x d e in
        (
          d,
          e,
          accepted_digest (after past) x past d t (after-Backed past) (rw same at et)
              (rw same at ok),
        )
  ]
