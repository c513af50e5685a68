-- ===== src/Label/Fixed.antt =====
-- Normalizing a second time changes nothing.
use mathlib.Core.List.{append-nil, append_assoc}
use maping.Base.{
  ℕ, ◌+◌, ◌≤◌, ◌<◌, ◌≡◌, refl, ap, ◌∙◌, sym, Bool, true, false, none, some, [], ◌∷◌, ◌++◌, length,
  ltb, ◌==◌, arith, ◌⊎◌, inl, inr, length-append, lt→ltb,
}
use maping.Base.Bytes.{Bytes}
use maping.Label.{
  max_error_class_len, underscore, ascii_upper_alnum, write_byte, sanitize_from, trim_right,
  sanitize_error_class,
}
use maping.Label.Tidy.{Tidy, IsUpperAlnum, ends, sanitize_error_class-Tidy}

alnum_kept : (c : ℕ) → IsUpperAlnum c → ascii_upper_alnum c ≡ some c
unfolding ascii_upper_alnum
alnum_kept c h = ground arith

underscore_dropped : ascii_upper_alnum underscore ≡ none
unfolding ascii_upper_alnum
underscore_dropped = refl

-- The loop copies a tidy text that fits.
sanitize_from-copy :
    (s b : Bytes) (prev p : Bool)
    → Tidy p s
    → (p ≡ false → (prev ≡ false) × (0 < length b))
    → length b + length s ≤ max_error_class_len
    → sanitize_from s b prev ≡ b ++ s
unfolding sanitize_from write_byte
sanitize_from-copy [] b prev p t flag fits = sym (append-nil b)
sanitize_from-copy (c ∷ s) b prev p (inl (a, t)) flag fits =
    let room : ltb (length b) max_error_class_len ≡ true = lt→ltb _ _ (omega arith) in
    let size = length-append b (c ∷ []) in
    rw (room, write_byte, alnum_kept c a)
      (sanitize_from-copy s (b ++ c ∷ []) false false t (λ h. (refl, omega (arith, size)))
          (omega (arith, size))
        ∙ append_assoc b (c ∷ []) s)
sanitize_from-copy (c ∷ s) b prev p (inr (e, f, t)) flag fits =
    let room : ltb (length b) max_error_class_len ≡ true = lt→ltb _ _ (omega arith) in
    let size = length-append b (underscore ∷ []) in
    let (clear, some_written) = flag f in
    let written : ltb 0 (length b) ≡ true = lt→ltb _ _ some_written in
    rw (room, e, write_byte, underscore_dropped, written, clear)
      (sanitize_from-copy s (b ++ underscore ∷ []) true true t (λ h. cc h) (omega (arith, size))
        ∙ append_assoc b (underscore ∷ []) s)

-- Nothing to trim.
trim_right-id : (s : Bytes) (p : Bool) → ends p s ≡ false → trim_right s ≡ s
unfolding trim_right
trim_right-id [] p h = refl
trim_right-id (c ∷ []) p h = rw h refl
trim_right-id (c ∷ d ∷ s) p h = rw (trim_right-id (d ∷ s) (c == underscore) h) (ground arith)

sanitize-Tidy :
    (s : Bytes)
    → Tidy true s
    → length s ≤ max_error_class_len
    → (s ≡ []) ⊎ (ends true s ≡ false)
    → sanitize_error_class s ≡ s
unfolding sanitize_error_class
sanitize-Tidy [] t short h = refl
sanitize-Tidy (c ∷ s) t short (inl e) = cc
sanitize-Tidy (c ∷ s) t short (inr e) =
    ap trim_right
      (sanitize_from-copy (c ∷ s) [] false true t (λ h. absurd (cc h)) (omega (arith, short)))
    ∙ trim_right-id (c ∷ s) true e

-- Normalizing is idempotent: a label that was normalized once is stored as it is.
pub sanitize_error_class_idem :
    (s : Bytes) → sanitize_error_class (sanitize_error_class s) ≡ sanitize_error_class s
sanitize_error_class_idem s =
    let (short, tidy, end) = sanitize_error_class-Tidy s in
    sanitize-Tidy (sanitize_error_class s) tidy short end
