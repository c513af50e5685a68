-- ===== src/Panels/Tests.antt =====
-- The panels at concrete inputs.
use maping.Base.{ℕ, ◌≡◌, ◌≤◌, ◌+◌, refl, List, [], ◌∷◌, arith, ◌++◌}
use maping.Base.Bytes.{Bytes, codes}
use maping.Base.Sort.{sort_by, insert_left, sort_onto, reverse_onto}
use maping.Stats.{VersionStat, DownstreamStat}
use maping.Panels.{
  trunc_id, id_trunc_len, dominant_version, dominant_from, sorted_codes, code_view, code_less,
}
use maping.Panels.Fleet.{self_ns, down_ns}
use maping.Panels.Shares.{self-down_lem}

long_id : trunc_id (codes "0123456789abcdef") ≡ codes "0123456789ab" ++ 226 ∷ 128 ∷ 166 ∷ []
unfolding trunc_id id_trunc_len
long_id = refl

codes_ascend :
    sorted_codes ((500, 2) ∷ (404, 1) ∷ [])
    ≡ record { code = 404; count = 1 } ∷ record { code = 500; count = 2 } ∷ []
unfolding sorted_codes code_view code_less sort_by insert_left sort_onto reverse_onto
codes_ascend = refl

-- More downstream time than time, as a skewed clock reports it.
abbrev skewed : DownstreamStat
skewed = record { count = 2; sum_duration_ns = 5; sum_downstream_ns = 7 }

self-down_lem_example : (down_ns skewed ≤ 5) × (self_ns skewed + down_ns skewed ≡ 5)
self-down_lem_example = self-down_lem skewed (omega arith)

abbrev version_of : Bytes → ℕ → VersionStat ℕ
version_of v n = record { version = v; count = n; error_rate = 0; p50 = 1; p95 = 1; p99 = 1 }

abbrev deployed : List (VersionStat ℕ)
deployed = version_of [] 90 ∷ version_of (codes "v1") 4 ∷ version_of (codes "v2") 6 ∷ []

second_dominates : dominant_version deployed ≡ codes "v2"
unfolding dominant_version dominant_from
second_dominates = refl
