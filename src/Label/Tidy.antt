-- ===== src/Label/Tidy.antt =====
-- What a normalized label looks like.
use maping.Base.{
  ℕ, ◌≤◌, ◌<◌, ◌≡◌, refl, ◌∙◌, Bool, true, false, ◌&&◌, not, some, [], ◌∷◌, ◌++◌, length, ltb, ◌==◌,
  arith, ◌⊎◌, inl, inr, Bool-cases, Option-cases, length-append, ltb→lt,
}
use maping.Base.Bytes.{Bytes, is_empty}
use maping.Label.{
  max_error_class_len, underscore, ascii_upper_alnum, write_byte, sanitize_from, trim_right,
  sanitize_error_class,
}

-- A byte of [A-Z0-9].
abbrev pub IsUpperAlnum : ℕ → Type 0
IsUpperAlnum c = ((b'A' ≤ c) × (c ≤ b'Z')) ⊎ ((b'0' ≤ c) × (c ≤ b'9'))

-- Bytes of [A-Z0-9_] with no two underscores in a row, and none in front after `true`.
abbrev pub Tidy : Bool → Bytes → Type 0
Tidy after_underscore [] = Unit
Tidy after_underscore (c ∷ s) =
    (IsUpperAlnum c × Tidy false s) ⊎ ((c ≡ underscore) × (after_underscore ≡ false) × Tidy true s)

-- Whether a text behind `p` ends in an underscore.
abbrev pub ends : Bool → Bytes → Bool
ends p [] = p
ends p (c ∷ s) = ends (c == underscore) s

ascii_upper_alnum-IsUpperAlnum : (c u : ℕ) → ascii_upper_alnum c ≡ some u → IsUpperAlnum u
unfolding ascii_upper_alnum
ascii_upper_alnum-IsUpperAlnum c u e = ground arith

pub alnum-ne-underscore : (c : ℕ) → IsUpperAlnum c → (c == underscore) ≡ false
alnum-ne-underscore c h = ground arith

Tidy-append_alnum :
    (p : Bool) (b : Bytes) (u : ℕ) → IsUpperAlnum u → Tidy p b → Tidy p (b ++ u ∷ [])
Tidy-append_alnum p [] u h t = inl (h, tt)
Tidy-append_alnum p (c ∷ b) u h (inl (a, t)) = inl (a, Tidy-append_alnum false b u h t)
Tidy-append_alnum p (c ∷ b) u h (inr (e, f, t)) = inr (e, f, Tidy-append_alnum true b u h t)

Tidy-append_underscore :
    (p : Bool) (b : Bytes) → ends p b ≡ false → Tidy p b → Tidy p (b ++ underscore ∷ [])
Tidy-append_underscore p [] h t = inr (refl, h, tt)
Tidy-append_underscore p (c ∷ b) h (inl (a, t)) =
    inl (a, Tidy-append_underscore false b (rw (alnum-ne-underscore c a) at h) t)
Tidy-append_underscore p (c ∷ b) h (inr (e, f, t)) =
    inr (e, f, Tidy-append_underscore true b (rw e at h) t)

ends-append : (p : Bool) (b : Bytes) (c : ℕ) → ends p (b ++ c ∷ []) ≡ (c == underscore)
ends-append p [] c = refl
ends-append p (d ∷ b) c = ends-append (d == underscore) b c

-- What the loop keeps: the builder is tidy and within its length, and `prevUnderscore` is set
-- just when it ends in an underscore.
record Keeps (b : Bytes) (prev : Bool) : Type 0 where
  tidy : Tidy true b
  short : length b ≤ max_error_class_len
  flag : (0 < length b) → ends true b ≡ prev

write_byte-Keeps :
    (c : ℕ) (b : Bytes) (prev : Bool)
    → length b < max_error_class_len
    → Keeps b prev
    → Keeps (write_byte c b prev).0 (write_byte c b prev).1
unfolding write_byte
write_byte-Keeps c b prev room k = elim (Option-cases (ascii_upper_alnum c)) [
  | inl none_found ↦ elim (Bool-cases (ltb 0 (length b) && not prev)) [
    | inl e ↦
        rw (none_found, write_byte, e)
          (record {
            tidy = Tidy-append_underscore true b (open_end e) k.tidy;
            short = omega (arith, length-append b (underscore ∷ []));
            flag = λ h. ends-append true b underscore;
          })
    | inr e ↦ rw (none_found, write_byte, e) k
  ]
  | inr (u, e) ↦
      let a = ascii_upper_alnum-IsUpperAlnum c u e in
      rw (e, write_byte)
        (record {
          tidy = Tidy-append_alnum true b u a k.tidy;
          short = omega (arith, length-append b (u ∷ []));
          flag = λ h. ends-append true b u ∙ alnum-ne-underscore u a;
        })
]
  where
    open_end : (ltb 0 (length b) && not prev) ≡ true → ends true b ≡ false
    open_end e = ground (arith, k.flag)

sanitize_from-Keeps :
    (s b : Bytes) (prev : Bool)
    → Keeps b prev
    → Tidy true (sanitize_from s b prev) × (length (sanitize_from s b prev) ≤ max_error_class_len)
unfolding sanitize_from
sanitize_from-Keeps [] b prev k = (k.tidy, k.short)
sanitize_from-Keeps (c ∷ s) b prev k = elim (Bool-cases (ltb (length b) max_error_class_len)) [
  | inl e ↦ rw e (sanitize_from-Keeps s _ _ (write_byte-Keeps c b prev (ltb→lt _ _ e) k))
  | inr e ↦ rw e (k.tidy, k.short)
]

is_empty-nil : (s : Bytes) → is_empty s ≡ true → s ≡ []
is_empty-nil [] e = refl
is_empty-nil (c ∷ s) e = cc

trim_right-Tidy : (p : Bool) (s : Bytes) → Tidy p s → Tidy p (trim_right s)
unfolding trim_right
trim_right-Tidy p [] t = tt
trim_right-Tidy p (c ∷ s) (inl (a, t)) =
    rw (alnum-ne-underscore c a) (inl (a, trim_right-Tidy false s t))
trim_right-Tidy p (c ∷ s) (inr (e, f, t)) = elim (Bool-cases (is_empty (trim_right s))) [
  | inl empty ↦ rw (e, empty) tt
  | inr more ↦ rw (e, more) (inr (refl, f, trim_right-Tidy true s t))
]

length-trim_right-le : (s : Bytes) → length (trim_right s) ≤ length s
unfolding trim_right
length-trim_right-le [] = omega arith
length-trim_right-le (c ∷ s) = ground (arith, length-trim_right-le s)

-- No underscore at the end, unless nothing is left.
ends-trim_right :
    (s : Bytes) → is_empty (trim_right s) ≡ false → (p : Bool) → ends p (trim_right s) ≡ false
unfolding trim_right
ends-trim_right [] h p = cc
ends-trim_right (c ∷ s) h p = elim (Bool-cases (is_empty (trim_right s))) [
  | inl empty ↦ last_byte empty (Bool-cases (c == underscore))
  | inr more ↦
      let same : (c == underscore && is_empty (trim_right s)) ≡ false = ground arith in
      rw same (ends-trim_right s more (c == underscore))
]
  where
    last_byte :
        is_empty (trim_right s) ≡ true
        → ((c == underscore) ≡ true) ⊎ ((c == underscore) ≡ false)
        → ends p (trim_right (c ∷ s)) ≡ false
    last_byte empty (inl e) = cc (rw (e, empty) at h)
    last_byte empty (inr e) = rw (e, is_empty-nil (trim_right s) empty) e

-- A normalized label is a storable token, for every input: it has at most 64 bytes, each of
-- [A-Z0-9_], with no two underscores in a row and none in front, and it is empty or does not end
-- in an underscore.
pub sanitize_error_class-Tidy :
    (s : Bytes)
    → (length (sanitize_error_class s) ≤ max_error_class_len)
      × Tidy true (sanitize_error_class s)
      × ((sanitize_error_class s ≡ []) ⊎ (ends true (sanitize_error_class s) ≡ false))
unfolding sanitize_error_class
sanitize_error_class-Tidy [] = (omega arith, tt, inl refl)
sanitize_error_class-Tidy (c ∷ s) =
    let start : Keeps [] false = record {
      tidy = tt;
      short = omega arith;
      flag = λ h. absurd (omega arith);
    } in
    let (tidy, short) = sanitize_from-Keeps (c ∷ s) [] false start in
    let built = sanitize_from (c ∷ s) [] false in
    (
      omega (arith, length-trim_right-le built),
      trim_right-Tidy true built tidy,
      elim (Bool-cases (is_empty (trim_right built))) [
        | inl e ↦ inl (is_empty-nil (trim_right built) e)
        | inr e ↦ inr (ends-trim_right built e true)
      ],
    )
