-- ===== src/Session/Tests.antt =====
-- A session with a toy MAC and numbers of one byte.
use maping.Base.{
  ◌≡◌, ◌⊎◌, refl, ℕ, zero, suc, ◌==◌, if◌then◌else◌, true, Option, none, some, [], ◌∷◌, length,
  arith,
}
use maping.Base.Bytes.{Bytes, codes}
use maping.Base.Int.{ℤ, pos, negsuc}
use maping.Base.Text.{split_on, Without}
use maping.Token.Toy.{toy, half-odd, odd-NoDot}
use maping.Session.{Instant, Session, Decimal, after, unix, encode, decode}
use maping.Session.Round.{CodecLaws, session_back}
use maping.Session.Signed.{IsSigned, Carries, decode-IsSigned}

-- A number is a sign and as many ones as it has units.
abbrev ones : ℕ → Bytes
ones zero = []
ones (suc n) = 49 ∷ ones n

abbrev print : ℤ → Bytes
print (pos n) = 43 ∷ ones n
print (negsuc n) = 45 ∷ ones n

abbrev parse : Bytes → Option ℤ
parse [] = none
parse (c ∷ s) = if c == 43 then some (pos (length s)) else some (negsuc (length s))

abbrev unary : Decimal
unary = record { format_int = print; parse_int = parse }

length-ones : (n : ℕ) → length (ones n) ≡ n
length-ones zero = refl
length-ones (suc n) = omega (arith, length-ones n)

parse-print : (n : ℤ) → parse (print n) ≡ some n
parse-print (pos n) = rw (length-ones n) refl
parse-print (negsuc n) = rw (length-ones n) refl

ones-Without : (n : ℕ) → Without 124 (ones n)
ones-Without zero = tt
ones-Without (suc n) = (λ e. omega arith, ones-Without n)

print-Without : (n : ℤ) → Without 124 (print n)
print-Without (pos n) = (λ e. omega arith, ones-Without n)
print-Without (negsuc n) = (λ e. omega arith, ones-Without n)

unary_laws : CodecLaws toy unary
unary_laws = record {
  back = λ s. rw (half-odd s) refl;
  no_dot = odd-NoDot;
  parse_back = parse-print;
  no_bar = print-Without;
}

-- The MAC is the payload's length.
abbrev short_mac : Bytes → Bytes
short_mac p = length p ∷ []

abbrev admin : Session
admin = record {
  org_id = codes "o1";
  member_id = codes "m1";
  role = codes "admin";
  exp = record { sec = pos 9; nsec = 7 };
}

abbrev at_five : Instant
at_five = record { sec = pos 5; nsec = 3 }

still_live : after (unix (pos 9)) at_five ≡ true
unfolding after unix
still_live = refl

no_bar_in : (Without 124 (codes "o1")) × (Without 124 (codes "m1")) × (Without 124 (codes "admin"))
no_bar_in = (
  (λ e. omega arith, (λ e. omega arith, tt)),
  (λ e. omega arith, (λ e. omega arith, tt)),
  (
    λ e. omega arith,
    (λ e. omega arith, (λ e. omega arith, (λ e. omega arith, (λ e. omega arith, tt)))),
  ),
)

session_back_example :
    decode toy unary short_mac (encode toy unary short_mac admin) at_five
    ≡ some (record admin { exp = unix (pos 9) })
session_back_example =
    session_back toy unary short_mac admin at_five unary_laws no_bar_in.0 no_bar_in.1 no_bar_in.2
      still_live

decode-IsSigned_example :
    (decode toy unary short_mac (encode toy unary short_mac admin) at_five ≡ none)
    ⊎ (s : Session) × (payload : Bytes) × (decode toy unary short_mac
          (encode toy unary short_mac admin)
          at_five
        ≡ some s)
      × IsSigned toy unary short_mac (encode toy unary short_mac admin) payload
      × Carries toy unary short_mac at_five (split_on 124 payload) s
decode-IsSigned_example =
    decode-IsSigned toy unary short_mac (encode toy unary short_mac admin) at_five
