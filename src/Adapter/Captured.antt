-- ===== src/Adapter/Captured.antt =====
-- What the capturing writer has captured after a handler's calls.
use maping.Base.{ℕ, ◌+◌, List, [], ◌∷◌}
use maping.Base.Int.{ℤ, pos}
use maping.Adapter.{Call, writes_header, writes, reads_from}

-- The status of the first call: the code of a WriteHeader, and 200 for a body without one.
unfoldable pub first_status : List Call → ℤ
first_status [] = pos 200
first_status (writes_header code ∷ cs) = code
first_status (writes n ∷ cs) = pos 200
first_status (reads_from n ∷ cs) = pos 200

unfoldable pub body_bytes : List Call → ℕ
body_bytes [] = 0
body_bytes (writes_header code ∷ cs) = body_bytes cs
body_bytes (writes n ∷ cs) = n + body_bytes cs
body_bytes (reads_from n ∷ cs) = n + body_bytes cs
