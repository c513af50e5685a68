-- ===== src/Panels.antt =====
-- server/internal/web/view_detail.go: from the statistics of an endpoint to the rows of its page.
pub mod Rows
pub mod Fleet
pub mod Shares
mod Tests
use maping.Base.{
  ℕ, ◌^◌, Bool, true, false, not, ◌&&◌, ◌||◌, Option, none, some, List, [], ◌∷◌, ◌++◌, map, length,
  take, keep, ltb, leb, ◌==◌, if◌then◌else◌,
}
use maping.Base.Assoc.{Map, lookup}
use maping.Base.Bytes.{Bytes, codes, bytes_discrete, bytes_key, is_empty}
use maping.Base.Sort.{sort_by}
use maping.Base.Word.{sub64}
use maping.Float.{Float}
use maping.Format.{Strconv}
use maping.Stats.{
  ClassStat, EndpointDetail, InstanceStat, VersionStat, ClassLatency, NoStatusReasonStat,
  DownstreamStat, InstanceResourceStat,
}
use maping.Panels.Rows.{
  InstanceRow, VersionRow, ClassLatencyRow, NoStatusReasonRow, DownstreamView, ResourceRow,
}
use maping.Verdict.{Detail, StatusClassView, StatusCodeView, median, float_less}

-- errorClasses, a set of three names
unfoldable pub is_error_class : Bytes → Bool
is_error_class class = elim (bytes_discrete class (codes "4xx")) [
  | yes _ ↦ true
  | no _ ↦ elim (bytes_discrete class (codes "5xx")) [
    | yes _ ↦ true
    | no _ ↦ elim (bytes_discrete class (codes "no_status")) [ yes _ ↦ true | no _ ↦ false ]
  ]
]

unfoldable pub class_view : ClassStat → StatusClassView
class_view c = record { class = c.class; count = c.count; is_error = is_error_class c.class }

unfoldable pub code_view : ℕ × ℕ → StatusCodeView
code_view (code, count) = record { code = code; count = count }

unfoldable pub code_less : StatusCodeView → StatusCodeView → Bool
code_less a b = ltb a.code b.code

unfoldable pub sorted_codes : Map ℕ ℕ → List StatusCodeView
sorted_codes m = sort_by code_less (map code_view m)

unfoldable pub id_trunc_len : ℕ
id_trunc_len = 12

-- An id is cut after twelve bytes, with an ellipsis (in UTF-8) in place of the rest.
unfoldable pub trunc_id : Bytes → Bytes
trunc_id id =
    if is_empty id
    then []
    else if leb (length id) id_trunc_len
    then id
    else take id_trunc_len id ++ 226 ∷ 128 ∷ 166 ∷ []

-- The key of storage and the label of the page, in the order of the page.
abbrev status_class_labels : List (Bytes × Bytes)
status_class_labels =
    (codes "STATUS_CLASS_2XX", codes "2xx")
    ∷ (codes "STATUS_CLASS_3XX", codes "3xx")
    ∷ (codes "STATUS_CLASS_4XX", codes "4xx")
    ∷ (codes "STATUS_CLASS_5XX", codes "5xx")
    ∷ (codes "STATUS_CLASS_NO_STATUS", codes "no_status")
    ∷ []

unfoldable pub no_status_label : ℕ → Bytes
no_status_label reason =
    if reason == 0
    then codes "unspecified"
    else if reason == 1
    then codes "context canceled"
    else if reason == 2
    then codes "context deadline"
    else if reason == 3
    then codes "write error"
    else if reason == 4
    then codes "panic"
    else codes "other"

unfoldable pub to_no_status_reason_rows : List NoStatusReasonStat → List NoStatusReasonRow
to_no_status_reason_rows stats =
    map (λ (s : NoStatusReasonStat). record { reason = no_status_label s.reason; count = s.count })
      stats

module _ {F : Type 0} where
  unfoldable pub to_class_rows_from :
      List (Bytes × Bytes) → Map Bytes (ClassLatency F) → List (ClassLatencyRow F)
  to_class_rows_from [] by_class = []
  to_class_rows_from ((key, label) ∷ labels) by_class =
      let rest = to_class_rows_from labels by_class in
      elim (lookup key by_class) [
        | none ↦ rest
        | some cl ↦
            if cl.count == 0
            then rest
            else record {
              class = label;
              count = cl.count;
              p50 = cl.p50;
              p95 = cl.p95;
              p99 = cl.p99;
            }
              ∷ rest
      ]

  -- A missing key is a class without traffic.
  unfoldable pub to_class_latency_rows : Map Bytes (ClassLatency F) → List (ClassLatencyRow F)
  to_class_latency_rows by_class = to_class_rows_from status_class_labels by_class

  -- The loop of `dominantVersion`, with the best version so far and its count.
  unfoldable pub dominant_from : Bytes → ℕ → List (VersionStat F) → Bytes
  dominant_from best best_count [] = best
  dominant_from best best_count (s ∷ ss) =
      if not (is_empty s.version) && ltb best_count s.count
      then dominant_from s.version s.count ss
      else dominant_from best best_count ss

  unfoldable pub dominant_version : List (VersionStat F) → Bytes
  dominant_version stats = dominant_from [] 0 stats
