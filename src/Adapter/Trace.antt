-- ===== src/Adapter/Trace.antt =====
-- Which trace and span ids a header yields.
use maping.Base.{
  ℕ, ◌≡◌, refl, ap, ◌⊎◌, inl, inr, ◌∙◌, true, false, not, ◌||◌, List, [], ◌∷◌, length, Bool-cases,
  arith,
}
use maping.Base.Bytes.{Bytes, is_empty}
use maping.Base.Text.{join, split_on, split_on_four, Without}
use maping.Adapter.{is_hex_digit, all_hex, is_hex, all_zero, ids_of, parse_traceparent}

-- An id of n hexadecimal digits, not all of them zero.
unfoldable pub IsId : ℕ → Bytes → Type 0
IsId n s = (length s ≡ n) × (all_hex s ≡ true) × (all_zero s ≡ false)

is_hex_lem : (s : Bytes) (n : ℕ) → (not (is_hex s n) || all_zero s) ≡ false → IsId n s
unfolding is_hex IsId
is_hex_lem s n h = ground arith

IsId-is_hex : (s : Bytes) (n : ℕ) → IsId n s → (not (is_hex s n) || all_zero s) ≡ false
unfolding is_hex IsId
IsId-is_hex s n h = ground arith

ids_of_lem :
    (parts : List Bytes)
    → (ids_of parts ≡ ([], [])) ⊎ IsId 32 (ids_of parts).0 × IsId 16 (ids_of parts).1
unfolding ids_of
ids_of_lem [] = inl refl
ids_of_lem (a ∷ []) = inl refl
ids_of_lem (a ∷ b ∷ []) = inl refl
ids_of_lem (a ∷ b ∷ c ∷ []) = inl refl
ids_of_lem (a ∷ b ∷ c ∷ d ∷ []) = elim (Bool-cases (not (is_hex b 32) || all_zero b)) [
  | inl e ↦ rw e (inl refl)
  | inr e ↦ elim (Bool-cases (not (is_hex c 16) || all_zero c)) [
    | inl f ↦ rw (e, f) (inl refl)
    | inr f ↦ rw (e, f) (inr (is_hex_lem b 32 e, is_hex_lem c 16 f))
  ]
]
ids_of_lem (a ∷ b ∷ c ∷ d ∷ e ∷ fs) = inl refl

-- A header yields a trace id of thirty-two and a span id of sixteen hexadecimal digits, neither
-- all zeros, or both are empty.
pub parse_traceparent_lem :
    (header : Bytes)
    → (parse_traceparent header ≡ ([], []))
      ⊎ IsId 32 (parse_traceparent header).0 × IsId 16 (parse_traceparent header).1
unfolding parse_traceparent
parse_traceparent_lem header = elim (Bool-cases (is_empty header)) [
  | inl e ↦ rw e (inl refl)
  | inr e ↦ rw e (ids_of_lem (split_on 45 header))
]

hex-Without : (s : Bytes) → all_hex s ≡ true → Without 45 s
unfolding all_hex is_hex_digit
hex-Without [] h = tt
hex-Without (c ∷ s) h = (λ e. ground arith, hex-Without s (ground arith))

ids_found :
    (version tid sid flags : Bytes)
    → IsId 32 tid
    → IsId 16 sid
    → ids_of (version ∷ tid ∷ sid ∷ flags ∷ []) ≡ (tid, sid)
unfolding ids_of
ids_found version tid sid flags t s = rw (IsId-is_hex tid 32 t, IsId-is_hex sid 16 s) refl

-- A header that is composed of a version, the two ids and flags, the version not empty and neither
-- it nor the flags with a '-', yields those two ids.
pub parse_traceparent_back :
    (version tid sid flags : Bytes)
    → is_empty version ≡ false
    → Without 45 version
    → Without 45 flags
    → IsId 32 tid
    → IsId 16 sid
    → parse_traceparent (join (version ∷ tid ∷ sid ∷ flags ∷ []) (45 ∷ [])) ≡ (tid, sid)
unfolding parse_traceparent join IsId
parse_traceparent_back [] tid sid flags h v f t s = cc h
parse_traceparent_back (c ∷ version) tid sid flags h v f t s =
    ap ids_of
      (split_on_four 45 (c ∷ version) tid sid flags v (hex-Without tid t.1) (hex-Without sid s.1) f)
    ∙ ids_found (c ∷ version) tid sid flags t s
