-- ===== src/Adapter.antt =====
-- client/adapterutil: what the adapters of every web framework share, adapterutil.go and
-- response_writer.go.
pub mod Trace
pub mod Captured
mod Tests
use maping.Base.{
  ℕ, Bool, true, false, not, ◌&&◌, ◌||◌, Option, none, some, List, [], ◌∷◌, length, ltb, leb, ◌==◌,
  if◌then◌else◌,
}
use maping.Base.Bytes.{Bytes, is_empty}
use maping.Base.Int.{add_int64, ℤ, pos, ltb_ℤ}
use maping.Base.Text.{split_on}

unfoldable pub is_hex_digit : ℕ → Bool
is_hex_digit c = not ((ltb c 48 || ltb 57 c) && (ltb c 97 || ltb 102 c) && (ltb c 65 || ltb 70 c))

unfoldable pub all_hex : Bytes → Bool
all_hex [] = true
all_hex (c ∷ s) = let rest = all_hex s in if not (is_hex_digit c) then false else rest

unfoldable pub is_hex : Bytes → ℕ → Bool
is_hex s n = if not (length s == n) then false else all_hex s

unfoldable pub all_zero : Bytes → Bool
all_zero [] = true
all_zero (c ∷ s) = let rest = all_zero s in if not (c == 48) then false else rest

unfoldable pub ids_of : List Bytes → Bytes × Bytes
ids_of (version ∷ tid ∷ sid ∷ flags ∷ []) =
    if not (is_hex tid 32) || all_zero tid
    then ([], [])
    else if not (is_hex sid 16) || all_zero sid
    then ([], [])
    else (tid, sid)
ids_of [] = ([], [])
ids_of (a ∷ []) = ([], [])
ids_of (a ∷ b ∷ []) = ([], [])
ids_of (a ∷ b ∷ c ∷ []) = ([], [])
ids_of (a ∷ b ∷ c ∷ d ∷ e ∷ fs) = ([], [])

-- The byte of '-' is 45.
unfoldable pub parse_traceparent : Bytes → Bytes × Bytes
parse_traceparent header = if is_empty header then ([], []) else ids_of (split_on 45 header)

unfoldable pub clamp_non_negative : ℤ → ℤ
clamp_non_negative n = if ltb_ℤ n (pos 0) then pos 0 else n

-- What errors.Is finds in the cause of a context.
pub data Cause : Type 0 where
  deadline_exceeded : Cause
  canceled : Cause
  other_cause : Cause

pub data NoStatusReason : Type 0 where
  no_status_unspecified : NoStatusReason
  no_status_context_canceled : NoStatusReason
  no_status_context_deadline : NoStatusReason
  no_status_write_error : NoStatusReason
  no_status_panic : NoStatusReason
  no_status_other : NoStatusReason

unfoldable pub reclassify_no_status : Option Cause → ℤ → ℤ × NoStatusReason
reclassify_no_status none status = (status, no_status_unspecified)
reclassify_no_status (some deadline_exceeded) status = (pos 0, no_status_context_deadline)
reclassify_no_status (some canceled) status = (pos 0, no_status_context_canceled)
reclassify_no_status (some other_cause) status = (pos 0, no_status_other)

-- The capturing writer, without the writer that it wraps; `bytes_written` is an int64.
pub record ResponseWriter : Type 0 where
  pub status : ℤ
  pub bytes_written : ℤ
  pub wrote_header : Bool

unfoldable pub wrap_response_writer : ResponseWriter
wrap_response_writer = record { status = pos 200; bytes_written = pos 0; wrote_header = false }

unfoldable pub write_header : ResponseWriter → ℤ → ResponseWriter
write_header w code =
    if not w.wrote_header then record w { status = code; wrote_header = true } else w

-- Write, where the wrapped writer accepted n bytes, with or without an error.
unfoldable pub write : ResponseWriter → ℕ → ResponseWriter
write w n = record w { wrote_header = true; bytes_written = add_int64 w.bytes_written (pos n) }

-- ReadFrom, by either of its two ways.
unfoldable pub read_from : ResponseWriter → ℕ → ResponseWriter
read_from w n = record w { wrote_header = true; bytes_written = add_int64 w.bytes_written (pos n) }

pub data Call : Type 0 where
  writes_header : ℤ → Call
  writes : ℕ → Call
  reads_from : ℕ → Call

unfoldable pub call : ResponseWriter → Call → ResponseWriter
call w (writes_header code) = write_header w code
call w (writes n) = write w n
call w (reads_from n) = read_from w n

unfoldable pub serve : ResponseWriter → List Call → ResponseWriter
serve w [] = w
serve w (c ∷ cs) = serve (call w c) cs
