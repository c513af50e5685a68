-- ===== src/Label/Tests.antt =====
-- Labels at concrete inputs.
use maping.Base.{◌≡◌, ◌≤◌, ◌⊎◌, refl, true, false, [], length}
use maping.Base.Bytes.{codes}
use maping.Label.{
  max_error_class_len, ascii_upper_alnum, write_byte, sanitize_from, trim_right,
  sanitize_error_class,
}
use maping.Label.Tidy.{Tidy, ends, sanitize_error_class-Tidy}

sanitize_words : sanitize_error_class (codes " db: pool  exhausted!") ≡ codes "DB_POOL_EXHAUSTED"
unfolding sanitize_error_class sanitize_from write_byte ascii_upper_alnum trim_right
    max_error_class_len
sanitize_words = refl

sanitize_error_class-Tidy_example :
    (length (sanitize_error_class (codes "__a-b_")) ≤ max_error_class_len)
    × Tidy true (sanitize_error_class (codes "__a-b_"))
    × ((sanitize_error_class (codes "__a-b_") ≡ [])
        ⊎ (ends true (sanitize_error_class (codes "__a-b_")) ≡ false))
sanitize_error_class-Tidy_example = sanitize_error_class-Tidy (codes "__a-b_")
