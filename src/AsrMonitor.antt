-- ===== src/AsrMonitor.antt =====
-- cmd/dictad/asrmonitor.go: submission under the concurrency cap, and what follows the backend's
-- reply. A callback pair is the value `K` of the variables that its closures capture; the caller
-- runs `onTranscript` on an accepted text and `onSkip` otherwise.
pub mod Filter
pub mod Results
pub mod Probe
mod Tests
use dicta.Base.{
  ℕ, suc, ◌+◌, Bool, true, false, List, [], ◌∷◌, ◌++◌, Option, none, some, Text, Unicode, is_empty,
  trim_space, length, ltb, ◌==◌, if◌then◌else◌,
}
use Filter.{is_whisper_hallucination, is_whisper_repetition_loop}

-- One transcription that runs: its callbacks, and the audio.
pub record Pending (K : Type 0) : Type 0 where
  pub ticket : ℕ
  pub callbacks : K
  pub pcm : List ℕ

-- `inflight` holds a slot for each running transcription; `strip` is `stripDisfluencies` under the
-- configured list.
pub record AsrMonitor (K : Type 0) : Type 0 where
  pub max_concurrent : ℕ
  pub inflight : List (Pending K)
  pub next_ticket : ℕ
  pub transcripts : ℕ
  pub last_transcript : Text
  pub last_error : Text
  pub utterance_seq : ℕ

-- `c.MaxConcurrent == 0` takes the default.
unfoldable pub new : {K : Type 0} → ℕ → AsrMonitor K
new n = record {
  max_concurrent = if n == 0 then 2 else n;
  inflight = [];
  next_ticket = 0;
  transcripts = 0;
  last_transcript = [];
  last_error = [];
  utterance_seq = 0;
}

module _ {K : Type 0} where
  -- The Boolean says that `onSkip` fires at once.
  unfoldable pub on_utterance : List ℕ → K → AsrMonitor K → AsrMonitor K × Bool
  on_utterance pcm k m =
      if is_empty pcm
      then (m, true)
      else if ltb (length m.inflight) m.max_concurrent
      then (
        record m {
          inflight = inflight ++ record { ticket = next_ticket; callbacks = k; pcm = pcm } ∷ [];
          next_ticket = suc next_ticket;
        },
        false,
      )
      else (m, true)
    where
      open m use {inflight, next_ticket}

  -- The running transcription with this ticket, and the others.
  unfoldable pub find : ℕ → List (Pending K) → Option (Pending K)
  find t [] = none
  find t (p ∷ ps) = if p.ticket == t then some p else find t ps

  unfoldable pub remove : ℕ → List (Pending K) → List (Pending K)
  remove t [] = []
  remove t (p ∷ ps) = if p.ticket == t then ps else p ∷ remove t ps

  -- The deferred receive from `inflight`, which frees the slot.
  unfoldable pub release : ℕ → AsrMonitor K → AsrMonitor K
  unfolding remove
  release t m = record m { inflight = remove t m.inflight }

-- The backend's reply: a text or an error message.
pub data Reply : Type 0 where
  text : Text → Reply
  error : Text → Reply

-- A text that passed the filters is counted, and handed on unless it is empty.
unfoldable pub accept : {K : Type 0} → Text → AsrMonitor K → AsrMonitor K × Option Text
accept t m = (
  record m {
    transcripts = m.transcripts + 1;
    last_transcript = t;
    utterance_seq = m.utterance_seq + 1;
  },
  if is_empty t then none else some t,
)

module _ {K : Type 0} (u : Unicode) (strip : Text → Text) where
  -- `transcribe` from the backend's reply on. `some` calls `onTranscript`, `none` calls `onSkip`.
  unfoldable pub transcribe : Reply → AsrMonitor K → AsrMonitor K × Option Text
  unfolding accept
  transcribe (error e) m = (record m { last_error = e }, none)
  transcribe (text raw) m =
      let t = strip (trim_space u raw) in
      if is_whisper_hallucination u t
      then (m, none)
      else if is_whisper_repetition_loop u t
      then (m, none)
      else accept t m
