-- ===== src/AsrMonitor/Results.antt =====
-- Which replies of the backend reach `onTranscript`, and the cap on running transcriptions.
use dicta.Base.{
  ◌⊎◌, inl, inr, if_intro, refl, Option, ◌+◌, ◌≡◌, true, [], ◌∷◌, none, some, arith, Text, Unicode,
  trim_space, is_empty,
}
use dicta.AsrMonitor.Filter.{is_whisper_hallucination, nil-hallucination}
use dicta.AsrMonitor.Filter.Fillers.{HasLetters, IsFiller, is_whisper_hallucination-IsFiller}
use dicta.AsrMonitor.Filter.Repetition.{HasRun, is_whisper_repetition_loop_iff}
use dicta.AsrMonitor.{AsrMonitor, Reply, text, error, transcribe, accept}

empty_case : (u : Unicode) (x : Text) → is_empty x ≡ true → is_whisper_hallucination u x ≡ true
empty_case u [] h = nil-hallucination u
empty_case u (c ∷ x) h = cc

module _ {K : Type 0} (u : Unicode) (strip : Text → Text) where
  -- A reply that is a filler, trimmed and stripped, reaches no `onTranscript` and changes nothing, in
  -- whatever case its letters are, with any full stops, marks, commas and blanks behind it, and with
  -- white space around; nor does one with the same letter three times in a row, or twice if English
  -- does not double it. No letter from a to z is white space.
  pub transcribe-drops :
      (raw : Text) (m : AsrMonitor K)
      → HasLetters u
      → IsFiller u (strip (trim_space u raw)) ⊎ HasRun u (strip (trim_space u raw))
      → transcribe u strip (text raw) m ≡ (m, none)
  unfolding transcribe
  transcribe-drops raw m l (inl f) =
      rw (is_whisper_hallucination-IsFiller u (strip (trim_space u raw)) l f) refl
  transcribe-drops raw m l (inr r) =
      let t : Text = strip (trim_space u raw) in
      if_intro (λ (x : AsrMonitor K × Option Text). x ≡ (m, none)) (is_whisper_hallucination u t)
        (λ _. refl) (λ _. rw ((is_whisper_repetition_loop_iff u t).1 r) refl)

  -- Every reply changes the counters as the log of accepted texts does: an accepted text is counted
  -- once, as a transcript and as an utterance, and is the last transcript; any other reply leaves
  -- both counters alone. No reply touches the running transcriptions.
  pub transcribe_counts :
      (r : Reply) (m : AsrMonitor K)
      → let (m', out) = transcribe u strip r m in
        (m'.inflight ≡ m.inflight)
        × ((t : Text)
            → out ≡ some t
            → (m'.transcripts ≡ m.transcripts + 1)
              × (m'.utterance_seq ≡ m.utterance_seq + 1)
              × (m'.last_transcript ≡ t))
        × (out ≡ none → (m'.transcripts ≡ m.transcripts) × (m'.utterance_seq ≡ m.utterance_seq))
  unfolding transcribe accept
  transcribe_counts (error e) m = ground arith
  transcribe_counts (text raw) m = ground (arith, empty_case u (strip (trim_space u raw)))
