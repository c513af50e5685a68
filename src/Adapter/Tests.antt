-- ===== src/Adapter/Tests.antt =====
-- Headers and responses at concrete inputs.
use maping.Base.{◌≡◌, refl, [], ◌∷◌, List, arith}
use maping.Base.Bytes.{Bytes, codes}
use maping.Base.Int.{pos, negsuc}
use maping.Base.Text.{join, Without}
use maping.Adapter.{
  parse_traceparent, ids_of, is_hex, all_hex, is_hex_digit, all_zero, clamp_non_negative, Call,
  writes_header, writes, reads_from,
}
use maping.Adapter.Trace.{IsId, parse_traceparent_back}
use maping.Adapter.Captured.{first_status}

abbrev trace : Bytes
trace = codes "4bf92f3577b34da6a3ce929d0e0e4736"

abbrev span : Bytes
span = codes "00f067aa0ba902b7"

trace-IsId : IsId 32 trace
unfolding IsId all_hex is_hex_digit all_zero
trace-IsId = (refl, refl, refl)

span-IsId : IsId 16 span
unfolding IsId all_hex is_hex_digit all_zero
span-IsId = (refl, refl, refl)

two_digits : Without 45 (codes "00")
two_digits = (λ e. omega arith, (λ e. omega arith, tt))

parse_traceparent_back_example :
    parse_traceparent (join (codes "00" ∷ trace ∷ span ∷ codes "00" ∷ []) (45 ∷ [])) ≡ (trace, span)
parse_traceparent_back_example =
    parse_traceparent_back (codes "00") trace span (codes "00") refl two_digits two_digits
      trace-IsId span-IsId

zero_span : ids_of (codes "00" ∷ trace ∷ codes "0000000000000000" ∷ codes "01" ∷ []) ≡ ([], [])
unfolding ids_of is_hex all_hex is_hex_digit all_zero
zero_span = refl

negative : clamp_non_negative (negsuc 4) ≡ pos 0
unfolding clamp_non_negative
negative = refl

-- Early hints, then the final status and a body in two pieces.
abbrev hinted : List Call
hinted = writes_header (pos 103) ∷ writes_header (pos 404) ∷ writes 5 ∷ reads_from 7 ∷ []

-- The status of the hint is captured, and not the final one.
hint_captured : first_status hinted ≡ pos 103
unfolding first_status
hint_captured = refl
