-- ===== src/Ingest.antt =====
-- server/internal/ingest/handler.go and convert.go: an upload, from its headers to the rows stored.
-- The resolver, the rate limiter, the limits, the size of the decoded request and the sinks are
-- the handler's dependencies: what they answer is an argument. A time is nanoseconds since 1970.
pub mod Skew
pub mod Stored
pub mod Windows
pub mod Riding
mod Tests
use maping.Base.{
  ℕ, zero, suc, ◌+◌, ◌*◌, ◌-◌, ◌^◌, Bool, true, false, ◌||◌, not, Option, none, some, List, [], ◌∷◌,
  ◌++◌, map, leb, ltb, ◌==◌, if◌then◌else◌,
}
use maping.Base.Int.{ℤ, pos, negsuc, ltb_ℤ, ◌-ℤ◌}
use maping.Base.Bytes.{Bytes, codes, is_empty}
use maping.Token.{strip}
use maping.Series.{
  StatusClass, unspecified, status_2xx, status_3xx, status_4xx, status_5xx, no_status, Exemplar,
}
use maping.Recorder.{Summary}
use maping.Cardinality
use maping.Cardinality.{Cardinality}

-- Ten minutes.
unfoldable pub skew_tolerance : ℕ
skew_tolerance = 600 * 1000000000

unfoldable pub status_class_name : StatusClass → Bytes
status_class_name status_2xx = codes "STATUS_CLASS_2XX"
status_class_name status_3xx = codes "STATUS_CLASS_3XX"
status_class_name status_4xx = codes "STATUS_CLASS_4XX"
status_class_name status_5xx = codes "STATUS_CLASS_5XX"
status_class_name no_status = codes "STATUS_CLASS_NO_STATUS"
status_class_name unspecified = codes "STATUS_CLASS_UNSPECIFIED"

-- time.UnixMilli
unfoldable pub from_milli : ℤ → ℤ
from_milli (pos n) = pos (n * 1000000)
from_milli (negsuc n) = negsuc (n * 1000000 + 999999)

-- time.Time.Sub stops at the least and the greatest Duration, -2^63 and 2^63 - 1.
unfoldable pub saturate : ℤ → ℤ
saturate (pos n) = if leb (2 ^ 63) n then pos (2 ^ 63 - 1) else pos n
saturate (negsuc n) = if leb (2 ^ 63) n then negsuc (2 ^ 63 - 1) else negsuc n

-- The negation of an int64, which leaves -2^63 as it is.
unfoldable pub negate : ℤ → ℤ
negate (pos zero) = pos zero
negate (pos (suc n)) = negsuc n
negate (negsuc n) = if n == 2 ^ 63 - 1 then negsuc n else pos (suc n)

-- The start and the end to store, none for a window that is not accepted.
unfoldable pub apply_timestamp_policy : ℤ → ℤ → ℤ → Option (ℤ × ℤ)
apply_timestamp_policy start_ms end_ms now =
    let drift = saturate (now -ℤ from_milli end_ms) in
    let drift' = if ltb_ℤ drift (pos 0) then negate drift else drift in
    if ltb_ℤ (pos skew_tolerance) drift'
    then none
    else some (from_milli start_ms, from_milli end_ms)

pub record Deploy : Type 0 where
  pub version : Bytes
  pub id : Bytes
  pub environment : Bytes
  pub region : Bytes
  -- None is the zero time.
  pub start : Option ℤ

unfoldable pub instance_start_time : ℤ → Option ℤ
instance_start_time (pos zero) = none
instance_start_time (pos (suc n)) = some (from_milli (pos (suc n)))
instance_start_time (negsuc n) = some (from_milli (negsuc n))

-- A row; its maps and exemplars are the summary's.
pub record Row : Type 0 where
  pub tenant : Bytes
  pub service : Bytes
  pub instance_ : Bytes
  pub deploy : Deploy
  pub status_class : Bytes
  pub window_start : ℤ
  pub window_end : ℤ
  pub summary : Summary

unfoldable pub summary_to_row : Bytes → Bytes → Bytes → Deploy → Summary → ℤ → ℤ → Row
summary_to_row tid service inst deploy s start end = record {
  tenant = tid;
  service = service;
  instance_ = inst;
  deploy = deploy;
  status_class = status_class_name s.status_class;
  window_start = start;
  window_end = end;
  summary = s;
}

-- What an upload changes: the rows that the sink has taken, and the guard, if one is wired.
pub record Store : Type 0 where
  pub rows : List Row
  pub guard : Option Cardinality

-- The envelope of a batch, with the tenant that it is stored for.
pub record Batch : Type 0 where
  pub tid : Bytes
  pub service : Bytes
  pub instance_ : Bytes
  pub deploy : Deploy
  pub card_cap : ℤ
  pub now : ℤ
  -- The guard's own reading of the clock.
  pub guard_now : ℕ

-- `refuses` is the sink: whether it returns an error for a row, given the rows that it has taken.
module _ (refuses : List Row → Row → Bool) where
  unfoldable pub enqueue : Store → Row → Store × Bool
  enqueue st row =
      if refuses st.rows row then (st, false) else (record st { rows = st.rows ++ row ∷ [] }, true)

  -- The guard's answer for a summary; with no guard, every series may pass.
  unfoldable pub guarded : Store → Batch → Summary → Store × Bool
  guarded st b s = elim st.guard [
    | none ↦ (st, true)
    | some c ↦
        let key =
          Cardinality.series_key s.method s.route_template (status_class_name s.status_class) in
        let (c', allowed, frozen) = Cardinality.allow c b.tid key b.card_cap b.guard_now in
        (record st { guard = some c' }, allowed)
  ]

  unfoldable pub store_summary : Store → Batch → Summary → Store × Bool
  store_summary st b s = elim (apply_timestamp_policy s.window_start_ms s.window_end_ms b.now) [
    | none ↦ (st, false)
    | some (start, end) ↦
        let (st', allowed) = guarded st b s in
        if allowed
        then enqueue st' (summary_to_row b.tid b.service b.instance_ b.deploy s start end)
        else (st', false)
  ]

  -- The store after a batch, and how many summaries were rejected.
  unfoldable pub store_summaries : Store → Batch → List Summary → Store × ℕ
  store_summaries st b [] = (st, 0)
  store_summaries st b (s ∷ ss) =
      let (st', ok) = store_summary st b s in
      let (st'', rejected) = store_summaries st' b ss in
      (st'', if ok then rejected else rejected + 1)

-- The two headers of a request that carry the key.
pub record Headers : Type 0 where
  pub authorization : Bytes
  pub maping_key : Bytes

-- "Bearer "
abbrev pub bearer_prefix : Bytes
bearer_prefix = codes "Bearer "

module _ (trim_space : Bytes → Bytes) where
  unfoldable pub extract_key : Headers → Bytes
  extract_key h = elim (strip bearer_prefix h.authorization) [
    | some key ↦ trim_space key
    | none ↦ trim_space h.maping_key
  ]

  -- tenant.Parse refuses the empty tenant. `resolver` answers none for a key it does not know.
  unfoldable pub authenticate : (Bytes → Option Bytes) → Headers → Option Bytes
  authenticate resolver h =
      let key = extract_key h in
      if is_empty key
      then none
      else elim (resolver key) [ none ↦ none | some tid ↦ if is_empty tid then none else some tid ]

pub data Response : Type 0 where
  unauthenticated resource_exhausted : Response
  accepted : ℕ → Response

-- What the dependencies answer for a tenant, in one request.
pub record Tenancy : Type 0 where
  pub allowed : Bool
  pub payload_limit : Option ℤ
  pub cap : Option ℤ

pub record Upload : Type 0 where
  pub headers : Headers
  -- proto.Size of the request.
  pub size : ℕ
  pub service : Bytes
  pub instance_ : Bytes
  pub deploy : Deploy
  pub summaries : List Summary

unfoldable pub payload_within_limit : Option ℤ → ℕ → Bool
payload_within_limit none size = true
payload_within_limit (some limit) size =
    if not (ltb_ℤ (pos 0) limit) then true else not (ltb_ℤ limit (pos size))

module _ (refuses : List Row → Row → Bool) (trim_space : Bytes → Bytes)
    (resolver : Bytes → Option Bytes) (tenancy : Bytes → Tenancy) where
  unfoldable pub batch_of : Upload → Bytes → Option ℤ → ℤ → ℕ → Batch
  batch_of u tid cap now guard_now = record {
    tid = tid;
    service = u.service;
    instance_ = u.instance_;
    deploy = u.deploy;
    card_cap = elim cap [ none ↦ pos 0 | some c ↦ c ];
    now = now;
    guard_now = guard_now;
  }

  -- The summaries' part of `Upload`.
  unfoldable pub upload : Store → Upload → ℤ → ℕ → Store × Response
  upload st u now guard_now = elim (authenticate trim_space resolver u.headers) [
    | none ↦ (st, unauthenticated)
    | some tid ↦
        if not (tenancy tid).allowed
        then (st, resource_exhausted)
        else if not (payload_within_limit (tenancy tid).payload_limit u.size)
        then (st, resource_exhausted)
        else let b = batch_of u tid (tenancy tid).cap now guard_now in
          let (st', rejected) = store_summaries refuses st b u.summaries in (st', accepted rejected)
  ]
