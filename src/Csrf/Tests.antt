-- ===== src/Csrf/Tests.antt =====
-- A token with a toy MAC.
use maping.Base.{◌≡◌, ◌↔◌, refl, ap, some, true, [], ◌∷◌, length, arith}
use maping.Base.Bytes.{Bytes, codes}
use maping.Base.Text.{Without}
use maping.Token.Toy.{toy, half-odd, odd-NoDot}
use maping.Csrf.{issue, verify}
use maping.Csrf.Bound.{verify-issue}

abbrev short : Bytes → Bytes
short p = length p ∷ []

one_letter : Without 124 (codes "a")
one_letter = (λ e. omega arith, tt)

other_letter : Without 124 (codes "b")
other_letter = (λ e. omega arith, tt)

verify-issue_example :
    (verify toy short (codes "a") (issue toy short (codes "b") (codes "n")) ≡ true)
    ↔ (codes "a" ≡ codes "b")
verify-issue_example =
    verify-issue toy short (λ s. ap some (half-odd s)) odd-NoDot (codes "a") (codes "b") (codes "n")
      one_letter other_letter refl
