-- ===== src/Uploader/Pending.antt =====
-- What each part of the loop does to the queue of pending requests, its ring seen as a list.
use maping.Base.{◌≡◌, refl, some, List, [], ◌∷◌, ◌++◌, true, false, Bool, set}
use maping.Base.Word.{sub64}
use maping.Ring
use maping.Ring.{Ring}
use maping.Ring.View.{Holds, overwrite-Holds}
use maping.Ring.Refinement.{pop-dequeue, peek-front}
use maping.Uploader.{
  Request, Loop, drain_empty, drain_sent, drain_failed, stamp, send_stamped, drain_request,
  try_drain_oldest, after_drain,
}

module _ {S : Type 0} where
  -- The loop after an attempt on an empty ring, an upload, and a refused upload.
  pub after_empty : (l : Loop S) → Holds l.ring [] → after_drain (try_drain_oldest l true) ≡ l
  unfolding after_drain try_drain_oldest drain_request
  after_empty l h = rw (peek-front l.ring [] h, drain_request) refl

  abbrev written : Loop S → Request S → Ring (Request S)
  written l req = record (l.ring) { buf = set l.ring.buf l.ring.head (some (stamp l req)) }

  pub drain_none :
      (l : Loop S) (accepted : Bool)
      → Holds l.ring []
      → try_drain_oldest l accepted ≡ (l, drain_empty)
  unfolding try_drain_oldest drain_request
  drain_none l accepted h = rw (peek-front l.ring [] h, drain_request) refl

  pub drain_accepted :
      (l : Loop S) (x : Request S) (xs : List (Request S))
      → Holds l.ring (x ∷ xs)
      → try_drain_oldest l true ≡ (
        record l {
          ring = (Ring.pop_oldest (written l x)).0;
          dropped_summaries = sub64 l.dropped_summaries l.dropped_summaries;
          uploaded = l.uploaded ++ stamp l x ∷ [];
        },
        drain_sent,
      )
  unfolding try_drain_oldest drain_request send_stamped stamp
  drain_accepted l x xs h = rw (peek-front l.ring (x ∷ xs) h, drain_request) refl

  pub drain_refused :
      (l : Loop S) (x : Request S) (xs : List (Request S))
      → Holds l.ring (x ∷ xs)
      → try_drain_oldest l false ≡ (record l { ring = written l x }, drain_failed)
  unfolding try_drain_oldest drain_request send_stamped stamp
  drain_refused l x xs h = rw (peek-front l.ring (x ∷ xs) h, drain_request) refl

  pub written-Holds :
      (l : Loop S) (x : Request S) (xs : List (Request S))
      → Holds l.ring (x ∷ xs)
      → Holds (written l x) (stamp l x ∷ xs)
  written-Holds l x xs h = overwrite-Holds l.ring x (stamp l x) xs h

  pub popped-Holds :
      (l : Loop S) (x : Request S) (xs : List (Request S))
      → Holds l.ring (x ∷ xs)
      → Holds (Ring.pop_oldest (written l x)).0 xs
  popped-Holds l x xs h = (pop-dequeue (written l x) (stamp l x ∷ xs) (written-Holds l x xs h)).0
