-- ===== src/Session/Progress.antt =====
-- Whether the job that the worker awaits becomes ready: each unfinished job is ready, or belongs to
-- a running transcription.
pub mod Cover
pub mod Calls
pub mod Work
pub mod Rounds
pub mod Runs
use Prim.Native.Nat.{ℕ}
use dicta.Base.{◌≡◌, ◌≢◌, ◌⊎◌, List, [], ◌∷◌, Option, none, some, Text}
use dicta.AsrMonitor.{Pending}
use dicta.Session.State.{Session, Submission, mode_type, lookup}
use dicta.Session.Order.{outstanding, jobs}

-- The job `id` is among these of transcriptions.
abbrev pub Waits : ℕ → List (Option ℕ) → Type 0
Waits id [] = ⊥
Waits id (none ∷ os) = Waits id os
Waits id (some j ∷ os) = (j ≡ id) ⊎ Waits id os

abbrev pub IsAnswered : List (ℕ × Text) → List (Option ℕ) → ℕ → Type 0
IsAnswered done os id = (lookup id done ≢ none) ⊎ Waits id os

abbrev pub Covered : List (ℕ × Text) → List (Option ℕ) → List ℕ → Type 0
Covered done os [] = Unit {0}
Covered done os (id ∷ ids) = IsAnswered done os id × Covered done os ids

-- Only an utterance of type mode has a job.
abbrev pub IsTyped : Submission → Type 0
IsTyped k = (k.mode ≡ mode_type) ⊎ (k.job ≡ none)

abbrev pub AllTyped : List (Pending Submission) → Type 0
AllTyped [] = Unit {0}
AllTyped (p ∷ ps) = IsTyped p.callbacks × AllTyped ps

-- Each unfinished job is ready or awaited, but for the job `o` of a callback that is under way.
pub record IsLiveBut (o : Option ℕ) (s : Session) : Type 0 where
  pub covered : Covered s.resolved (o ∷ jobs s.asr.inflight) (outstanding s.current s.type_queue)
  pub all_typed : AllTyped s.asr.inflight

abbrev pub IsLive : Session → Type 0
IsLive s = IsLiveBut none s
