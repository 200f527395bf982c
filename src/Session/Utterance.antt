-- ===== src/Session/Utterance.antt =====
-- cmd/dictad/session.go: `OnUtterance` and the two callbacks that it hands to the ASR monitor.
use dicta.Base.{
  ℕ, suc, ◌+◌, true, not, ◌&&◌, ◌||◌, List, [], ◌∷◌, ◌++◌, Option, none, some, Text, Unicode,
  is_empty, length, ltb, ◌==◌, if◌then◌else◌,
}
use dicta.AsrMonitor
use dicta.AsrMonitor.{AsrMonitor, Pending, Reply, find}
use dicta.Session.State.{
  mode_none, mode_type, mode_clip, mode_eq, Config, Env, transcript, audit, Submission, IdleTimer,
  Session, queue_capacity, emit, emit_if, lookup,
}

-- A close of `job.ready` after its text is set; a second close panics.
unfoldable pub close_ready : ℕ → Text → Session → Session
close_ready id text s = elim (lookup id s.resolved) [
  | none ↦ record s { resolved = (id, text) ∷ s.resolved }
  | some _ ↦ record s { panicked = true }
]

-- `if job != nil { close(job.ready) }`
unfoldable pub close_job : Option ℕ → Text → Session → Session
close_job none text s = s
close_job (some id) text s = close_ready id text s

-- `idleTimer.Reset`: the same function at a new deadline.
abbrev pub reset_timer : ℕ → Option IdleTimer → Option IdleTimer
reset_timer deadline none = none
reset_timer deadline (some t) = some (record t { deadline = some deadline })

unfoldable pub note_speech : Config → Env → Session → Session
note_speech c e s =
    if s.open_state && mode_eq s.mode mode_type
    then record s { idle_timer = reset_timer (e.now + c.idle_timeout) s.idle_timer }
    else s

unfoldable pub publish_transcript : Config → Text → Session → Session
publish_transcript c text s = emit_if (c.has_bus && not (is_empty text)) (transcript text) s

abbrev pub or_raw : Text → Option Text → Text
or_raw raw none = raw
or_raw raw (some t) = t

unfoldable pub run_cleanup : Env → Text → Text
run_cleanup e raw = or_raw raw (e.clean raw)

unfoldable pub deliver : Config → Env → Submission → Text → Session → Session
deliver c e k text s = elim k.mode [
  | mode_clip ↦
      let cleaned = run_cleanup e text in
      emit (audit mode_clip text cleaned) (publish_transcript c cleaned s)
  | mode_type ↦
      emit (audit mode_type text text) (close_job k.job text (publish_transcript c text s))
  | mode_none ↦ emit (audit mode_none text []) s
]

-- The `onTranscript` callback: a session that was reopened, or is open in another mode, drops it.
unfoldable pub on_transcript : Config → Env → Submission → Text → Session → Session
on_transcript c e k text s =
    if not (s.epoch == k.epoch) || (not (mode_eq s.mode k.mode) && not (mode_eq s.mode mode_none))
    then close_job k.job [] s
    else deliver c e k text s

-- The `onSkip` callback.
unfoldable pub on_skip : Submission → Session → Session
on_skip k s = close_job k.job [] s

-- The hand-over to the ASR monitor, whose `onSkip` may fire at once.
unfoldable pub submit : List ℕ → Submission → Session → Session
submit pcm k s =
    let (asr', skipped) = AsrMonitor.on_utterance pcm k s.asr in
    let s' = record s { asr = asr' } in if skipped then on_skip k s' else s'

-- `OnUtterance` in type mode: the job is queued before the audio is submitted.
unfoldable pub enqueue : List ℕ → Session → Session
enqueue pcm s =
    if s.queue_closed
    then record s { panicked = true }
    else if ltb (length s.type_queue) queue_capacity
    then submit pcm (record { mode = mode_type; epoch = s.epoch; job = some s.next_id })
        (record s {
          type_queue = s.type_queue ++ record { id = s.next_id; epoch = s.epoch } ∷ [];
          next_id = suc s.next_id;
        })
    else s

unfoldable pub on_utterance : Config → Env → List ℕ → Session → Session
on_utterance c e pcm s =
    if s.open_state
    then elim s.mode [
      | mode_type ↦ enqueue pcm (note_speech c e s)
      | mode_clip ↦
          submit pcm (record { mode = mode_clip; epoch = s.epoch; job = none }) (note_speech c e s)
      | mode_none ↦ s
    ]
    else s

abbrev pub after_reply : Config → Env → Submission → Option Text → Session → Session
after_reply c e k (some t) s = on_transcript c e k t s
after_reply c e k none s = on_skip k s

-- The end of the transcription `p`: the filters, one of the two callbacks, the release of the slot.
unfoldable pub finish_reply :
    Config → Unicode → (Text → Text) → Env → Pending Submission → Reply → Session → Session
finish_reply c u strip e p r s =
    let (asr', out) = AsrMonitor.transcribe u strip r s.asr in
    after_reply c e p.callbacks out (record s { asr = AsrMonitor.release p.ticket asr' })

abbrev pub reply_to :
    Config → Unicode → (Text → Text) → Env → Option (Pending Submission) → Reply → Session → Session
reply_to c u strip e none r s = s
reply_to c u strip e (some p) r s = finish_reply c u strip e p r s

-- The backend answers the transcription with this ticket.
unfoldable pub on_reply : Config → Unicode → (Text → Text) → Env → ℕ → Reply → Session → Session
on_reply c u strip e ticket r s = reply_to c u strip e (find ticket s.asr.inflight) r s
