-- ===== src/Session/Order.antt =====
-- The order of typing and the life of the `ready` channels: the invariant of the queue, the worker
-- and the running transcriptions.
pub mod Jobs
pub mod Kept
pub mod Replies
pub mod Utterances
pub mod Steps
pub mod Runs
use Prim.Native.Nat.{ℕ, suc, ◌≤◌, ◌<◌}
use dicta.Base.{◌≡◌, true, false, List, [], ◌∷◌, Option, none, some, Text, length}
use dicta.AsrMonitor.{Pending}
use dicta.Session.State.{Session, TypeJob, Typed, Submission, queue_capacity, lookup}

-- Strictly ascending numbers from `lo` on and below `hi`.
abbrev pub Asc : ℕ → ℕ → List ℕ → Type 0
Asc lo hi [] = lo ≤ hi
Asc lo hi (x ∷ xs) = (lo ≤ x) × Asc (suc x) hi xs

abbrev pub ids : List TypeJob → List ℕ
ids [] = []
ids (j ∷ js) = j.id ∷ ids js

-- The jobs that the worker has not finished, the awaited one first.
abbrev pub outstanding : Option TypeJob → List TypeJob → List ℕ
outstanding none js = ids js
outstanding (some j) js = j.id ∷ ids js

-- The least id that may be typed next, and typing in the order of submission (newest first).
abbrev pub typed_next : List Typed → ℕ
typed_next [] = 0
typed_next (t ∷ ts) = suc t.id

abbrev pub IsDescending : List Typed → Type 0
IsDescending [] = Unit {0}
IsDescending (t ∷ ts) = (typed_next ts ≤ t.id) × IsDescending ts

-- The type jobs of the running transcriptions; a clip-mode one has none.
abbrev pub jobs : List (Pending Submission) → List (Option ℕ)
jobs [] = []
jobs (p ∷ ps) = p.callbacks.job ∷ jobs ps

-- They ascend, and none of them is ready yet.
abbrev pub Awaited : ℕ → ℕ → List (ℕ × Text) → List (Option ℕ) → Type 0
Awaited lo hi done [] = lo ≤ hi
Awaited lo hi done (none ∷ os) = Awaited lo hi done os
Awaited lo hi done (some id ∷ os) =
    (lo ≤ id) × (lookup id done ≡ none) × Awaited (suc id) hi done os

abbrev pub Below : ℕ → List (ℕ × Text) → Type 0
Below hi [] = Unit {0}
Below hi ((id, t) ∷ done) = (id < hi) × Below hi done

pub record IsOrdered (s : Session) : Type 0 where
  pub ascending : Asc (typed_next s.typed) s.next_id (outstanding s.current s.type_queue)
  pub typed : IsDescending s.typed
  pub awaited : Awaited 0 s.next_id s.resolved (jobs s.asr.inflight)
  pub resolved : Below s.next_id s.resolved
  pub queue_bound : length s.type_queue ≤ queue_capacity
  pub slot_bound : length s.asr.inflight ≤ s.asr.max_concurrent
  pub calm : s.queue_closed ≡ false → s.panicked ≡ false
