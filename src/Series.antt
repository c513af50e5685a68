-- ===== src/Series.antt =====
-- client/series.go and `Observe` of client/maping.go on one series: the in-window aggregate.
-- Integers of Go that can be negative are ℤ; uint64 sums wrap. The conversion of a duration to
-- seconds, time.Duration.Seconds, is a parameter beside float64.
pub mod Codes
pub mod Counts
pub mod Valid
pub mod Exemplars
mod Tests
use Prim.Native.Nat.{bit_xor}
use maping.Base.{
  ℕ, suc, ◌+◌, ◌*◌, ◌/◌, ◌%◌, ◌^◌, Bool, true, false, ◌&&◌, ◌||◌, not, Option, none, some, List, [],
  ◌∷◌, ◌++◌, length, get_or, set, take, replicate, ltb, leb, ◌==◌, if◌then◌else◌, is_some, ite,
  ℕ_discrete,
}
use maping.Base.Int.{ℤ, ℤ_discrete, pos, negsuc, pos_part, ltb_ℤ}
use maping.Base.Word.{add64}
use maping.Base.Bytes.{Bytes, is_empty, bytes_discrete, bytes_key}
use maping.Base.Assoc.{Map, Key, lookup, insert, nat_key}
use maping.Float.{Float}
use maping.Sketch
use maping.Sketch.{DdSketch}
use maping.Label.{sanitize_error_class}

unfoldable pub max_status_codes : ℕ
max_status_codes = 20

unfoldable pub max_error_classes : ℕ
max_error_classes = 20

unfoldable pub max_error_exemplars : ℕ
max_error_exemplars = 2

abbrev pub no_status_other : ℕ
no_status_other = 5

pub record Record : Type 0 where
  pub method : Bytes
  pub route_template : Bytes
  pub status : ℤ
  pub duration : ℤ
  pub req_bytes : ℤ
  pub resp_bytes : ℤ
  pub trace_id : Bytes
  pub span_id : Bytes
  pub request_id : Bytes
  pub error_class : Bytes
  pub no_status_reason : ℕ
  pub downstream_duration : ℤ

pub record Exemplar : Type 0 where
  pub at_ms : ℤ
  pub duration_ns : ℕ
  pub status_code : ℕ
  pub trace_id : Bytes
  pub span_id : Bytes
  pub request_id : Bytes

-- The enum mapingv1.StatusClass, with its numbers on the wire.
pub data StatusClass : Type 0 where
  unspecified status_2xx status_3xx status_4xx status_5xx no_status : StatusClass

unfoldable pub class_number : StatusClass → ℕ
class_number unspecified = 0
class_number status_2xx = 1
class_number status_3xx = 2
class_number status_4xx = 3
class_number status_5xx = 4
class_number no_status = 5

unfoldable pub classify : ℤ → StatusClass
classify status =
    if ltb_ℤ status (pos 100)
    then no_status
    else if ltb_ℤ status (pos 300)
    then status_2xx
    else if ltb_ℤ status (pos 400)
    then status_3xx
    else if ltb_ℤ status (pos 500)
    then status_4xx
    else status_5xx

-- 4xx, 5xx, or no status.
unfoldable pub is_error : ℤ → Bool
is_error status = ltb_ℤ status (pos 1) || not (ltb_ℤ status (pos 400))

-- The conversions uint64(n) and uint32(n) of an int64 that the code has found positive.
abbrev pub to_u64 : ℤ → ℕ
to_u64 z = if ltb_ℤ (pos 0) z then pos_part z else 0

abbrev pub to_u32 : ℤ → ℕ
to_u32 z = if ltb_ℤ (pos 0) z then pos_part z % 2 ^ 32 else 0

unfoldable pub exemplar_of : Record → ℤ → Exemplar
exemplar_of rec now_ms = record {
  at_ms = now_ms;
  duration_ns = to_u64 rec.duration;
  status_code = to_u32 rec.status;
  trace_id = rec.trace_id;
  span_id = rec.span_id;
  request_id = rec.request_id;
}

-- m[k]++ on a map of counters.
unfoldable pub increment : {K : Type 0} → ⦃e : Key K⦄ → K → Map K ℕ → Map K ℕ
increment k m = elim (lookup k m) [ none ↦ insert k 1 m | some c ↦ insert k (add64 c 1) m ]

unfoldable pub record_code : Map ℕ ℕ → ℤ → Map ℕ ℕ
record_code codes status =
    if ltb_ℤ status (pos 1)
    then codes
    else if not (is_some (lookup (to_u32 status) codes)) && leb max_status_codes (length codes)
    then codes
    else increment (to_u32 status) codes

unfoldable pub record_error_class : Map Bytes ℕ → Bytes → Map Bytes ℕ
record_error_class classes raw =
    let label = sanitize_error_class raw in
    if is_empty label
    then classes
    else if not (is_some (lookup label classes)) && leb max_error_classes (length classes)
    then classes
    else increment label classes

unfoldable pub record_no_status_reason : Map ℕ ℕ → ℕ → Map ℕ ℕ
record_no_status_reason reasons r =
    increment (if ltb no_status_other r then no_status_other else r) reasons

pub record SeriesKey : Type 0 where
  pub method : Bytes
  pub route : Bytes
  pub class : StatusClass

pub record Series : Type 0 where
  pub count : ℕ
  pub sum_duration_ns : ℕ
  pub req_bytes : ℕ
  pub resp_bytes : ℕ
  pub max_duration_ns : ℕ
  pub sk : DdSketch
  pub status_codes : Map ℕ ℕ
  pub error_classes : Map Bytes ℕ
  pub no_status_reasons : Map ℕ ℕ
  pub sum_downstream_ns : ℕ
  pub slowest : Exemplar
  pub has_slowest : Bool
  pub errs : List Exemplar
  pub n_errs : ℕ

abbrev pub no_exemplar : Exemplar
no_exemplar = record {
  at_ms = pos 0;
  duration_ns = 0;
  status_code = 0;
  trace_id = [];
  span_id = [];
  request_id = [];
}

-- The series that `Observe` inserts at a key's first sighting.
unfoldable pub new_series : Series
new_series = record {
  count = 0;
  sum_duration_ns = 0;
  req_bytes = 0;
  resp_bytes = 0;
  max_duration_ns = 0;
  sk = Sketch.new;
  status_codes = [];
  error_classes = [];
  no_status_reasons = [];
  sum_downstream_ns = 0;
  slowest = no_exemplar;
  has_slowest = false;
  errs = replicate max_error_exemplars no_exemplar;
  n_errs = 0;
}

unfoldable pub observe_exemplar : Series → Record → Exemplar → Series
observe_exemplar s rec ex =
    let slower = not s.has_slowest || ltb s.slowest.duration_ns ex.duration_ns in
    let keep_error = is_error rec.status && ltb s.n_errs max_error_exemplars in
    record s {
      max_duration_ns =
          if ltb s.max_duration_ns ex.duration_ns then ex.duration_ns else s.max_duration_ns;
      slowest = if slower then ex else s.slowest;
      has_slowest = if slower then true else s.has_slowest;
      errs = if keep_error then set s.errs s.n_errs ex else s.errs;
      n_errs = if keep_error then s.n_errs + 1 else s.n_errs;
    }

unfoldable pub add_positive : ℕ → ℤ → ℕ
add_positive total n = if ltb_ℤ (pos 0) n then add64 total (pos_part n) else total

-- The counters of `Observe` that it adds before it calls `Add`.
abbrev pub add_sizes : Series → Record → Series
add_sizes s rec = record s {
  count = add64 s.count 1;
  sum_duration_ns = add_positive s.sum_duration_ns rec.duration;
  req_bytes = add_positive s.req_bytes rec.req_bytes;
  resp_bytes = add_positive s.resp_bytes rec.resp_bytes;
}

-- The counters of `Observe`, with the sketch after `Add`.
unfoldable pub add_counters : Series → Record → DdSketch → Series
add_counters s rec sk' = record (add_sizes s rec) {
  sk = sk';
  status_codes = record_code s.status_codes rec.status;
  error_classes = record_error_class s.error_classes rec.error_class;
  no_status_reasons =
      if ltb_ℤ rec.status (pos 1)
      then record_no_status_reason s.no_status_reasons rec.no_status_reason
      else s.no_status_reasons;
  sum_downstream_ns = add_positive s.sum_downstream_ns rec.downstream_duration;
}

module _ (fl : Float) (seconds : ℤ → fl.F) where
  -- The lines of `Observe` that fold a record into its series; `none` is a panic of the sketch.
  unfoldable pub observe_series : Series → Record → ℤ → Option Series
  observe_series s rec now_ms = elim (Sketch.observe fl s.sk (seconds rec.duration)) [
    | none ↦ none
    | some sk' ↦ some (observe_exemplar (add_counters s rec sk') rec (exemplar_of rec now_ms))
  ]

-- FNV-1a over a string, and over the key.
unfoldable pub hash_bytes : ℕ → Bytes → ℕ
hash_bytes h [] = h
hash_bytes h (c ∷ s) = hash_bytes (bit_xor h c * 16777619 % 2 ^ 32) s

unfoldable pub hash : SeriesKey → ℕ
hash k =
    let h = hash_bytes (hash_bytes 2166136261 k.method) k.route in
    let c = class_number k.class in
    let h' = bit_xor h (c % 256) * 16777619 % 2 ^ 32 in
    bit_xor h' (c / 256 % 256) * 16777619 % 2 ^ 32

Exemplar-discrete : Discrete Exemplar
Exemplar-discrete = hlevel (ℕ_discrete, ℤ_discrete, bytes_discrete)

-- The loop of `exemplars` over the kept errors: the slowest request is not listed twice.
unfoldable pub without_slowest : Series → List Exemplar → List Exemplar
unfolding Exemplar-discrete
without_slowest s [] = []
without_slowest s (e ∷ es) =
    let rest = without_slowest s es in
    if s.has_slowest then ite (Exemplar-discrete e s.slowest) rest (e ∷ rest) else e ∷ rest

unfoldable pub exemplars : Series → List Exemplar
exemplars s =
    let kept = without_slowest s (take s.n_errs s.errs) in
    if s.has_slowest then s.slowest ∷ kept else kept

StatusClass-discrete : Discrete StatusClass
StatusClass-discrete = hlevel

unfoldable pub SeriesKey-discrete : Discrete SeriesKey
unfolding StatusClass-discrete
SeriesKey-discrete = hlevel (bytes_discrete, StatusClass-discrete)
