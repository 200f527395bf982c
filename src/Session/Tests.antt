-- ===== src/Session/Tests.antt =====
-- cmd/dictad/session.go: runs of a session.
use dicta.Base.{
  ℕ, ◌≡◌, ◌==◌, refl, true, false, List, [], ◌∷◌, none, some, Text, codes, arith, length, trim_left,
  trim_right, trim_space,
}
use dicta.Base.Samples.{ascii}
use dicta.AsrMonitor.{Reply, text}
use dicta.Session.State.{mode_clip, Config, Env, Session, TypeJob, Typed, new}
use dicta.Session.Run.{
  Call, toggles, utters, replies, worker_takes, worker_types, commits, shuts_down, run,
}
use dicta.Session.Valid.{IsValid}
use dicta.Session.Valid.Runs.{run-IsValid}
use dicta.Session.Order.{IsOrdered}
use dicta.Session.Order.Runs.{run-IsOrdered}
use dicta.Session.Opening.{IsAtomic, open_session-IsAtomic}
use dicta.AsrMonitor
use dicta.AsrMonitor.Filter
use dicta.Session.Worker
use dicta.Session.Run
use dicta.Session.Utterance
use dicta.Session.Lifecycle
use dicta.Session.Lifecycle.{open_session, parse_session_mode}
use dicta.Session.Drain.{drain, drain-types, drain-IsStale, spaced, typed_so_far}
use dicta.Session.Progress.Runs.{settle, IsSettled, run-settles}
use dicta.Session.Toggle.{toggle_all, toggle_all-IsBurst}

abbrev config : Config
config = record {
  has_clipper = true;
  has_preview = true;
  has_cuer = true;
  has_bus = true;
  has_vad_reset = true;
  has_flush = true;
  has_lifecycle = true;
  toggle_debounce = 250;
  idle_timeout = 60;
}

abbrev env : ℕ → Env
env now = record {
  now = now;
  start_fails = false;
  spawn_fails = false;
  clip_fails = false;
  type_fails = false;
  flushed = none;
  clean = λ t. none;
}

-- Two utterances whose replies come in the other order, and the worker.
abbrev calls : List (Env × Call)
calls =
    (env 1000, toggles (codes "type"))
    ∷ (env 1100, utters (1 ∷ []))
    ∷ (env 1200, utters (2 ∷ []))
    ∷ (env 1300, replies 1 (text (codes "world")))
    ∷ (env 1400, worker_takes)
    ∷ (env 1400, worker_types)
    ∷ (env 1500, replies 0 (text (codes "hello")))
    ∷ (env 1600, worker_types)
    ∷ (env 1600, worker_takes)
    ∷ (env 1600, worker_types)
    ∷ []

abbrev words : List Typed → List Text
words [] = []
words (t ∷ ts) = t.text ∷ words ts

-- They are typed in the order of the utterances.
typed_in_order :
    words (run config ascii (λ t. t) calls (new 2)).typed ≡ codes " world" ∷ codes "hello" ∷ []
unfolding run Run.step Worker.worker_type Worker.worker_take Worker.take_from Worker.start_job
    Worker.dispatch Utterance.on_reply Utterance.finish_reply Utterance.on_transcript
    Utterance.deliver Utterance.publish_transcript Utterance.close_job Utterance.close_ready
    Utterance.on_utterance Utterance.enqueue Utterance.submit Utterance.note_speech Lifecycle.toggle
    parse_session_mode Lifecycle.toggle_debounced Lifecycle.toggle_to open_session
    Lifecycle.after_start Lifecycle.sync_audio Lifecycle.open_panel Lifecycle.announce_open
    Lifecycle.publish_state Lifecycle.arm_idle new AsrMonitor.find AsrMonitor.remove
    AsrMonitor.release AsrMonitor.accept AsrMonitor.transcribe AsrMonitor.on_utterance
    AsrMonitor.new Filter.normalize Filter.scan Filter.is_allowed_double
    Filter.is_whisper_hallucination Filter.is_whisper_repetition_loop trim_left trim_right
    trim_space
typed_in_order = refl

run-IsOrdered_example : IsOrdered (run config ascii (λ t. t) calls (new 2))
run-IsOrdered_example = run-IsOrdered config ascii (λ t. t) 2 calls

run-IsValid_example : IsValid config (run config ascii (λ t. t) calls (new 2))
run-IsValid_example = run-IsValid config ascii (λ t. t) 2 calls

open_session-IsAtomic_example :
    IsAtomic config
      (record (env 5) { spawn_fails = true })
      mode_clip
      (new 2)
      (open_session config (record (env 5) { spawn_fails = true }) mode_clip (new 2))
unfolding new
open_session-IsAtomic_example =
    open_session-IsAtomic config (record (env 5) { spawn_fails = true }) mode_clip (new 2) refl

abbrev jobs : List TypeJob
jobs = record { id = 0; epoch = 0 } ∷ record { id = 1; epoch = 0 } ∷ []

abbrev texts : List Text
texts = codes "hello" ∷ codes "world" ∷ []

unfoldable queued : Session
unfolding new
queued = record (new 2) {
  type_queue = jobs;
  next_id = 2;
  resolved = (1, codes "world") ∷ (0, codes "hello") ∷ [];
}

drain-types_example :
    ((drain (env 9) (length jobs) queued).typed ≡ spaced (typed_so_far queued == 0) jobs texts [])
    × ((drain (env 9) (length jobs) queued).type_queue ≡ [])
unfolding queued
drain-types_example =
    drain-types (env 9) jobs texts queued refl refl refl (refl, refl, refl, (refl, refl, refl, tt))

drain-IsStale_example :
    ((drain (env 9) (length jobs) (record queued { epoch = 1 })).typed ≡ [])
    × ((drain (env 9) (length jobs) (record queued { epoch = 1 })).type_queue ≡ [])
unfolding queued
drain-IsStale_example =
    drain-IsStale (env 9) jobs texts (record queued { epoch = 1 }) refl refl
      (ground arith, refl, (ground arith, refl, tt))

abbrev repeats : List (Env × Text)
repeats = (env 1100, codes "type") ∷ (env 1300, codes "type") ∷ (env 1500, codes "type") ∷ []

toggle_all-IsBurst_example :
    toggle_all config repeats (record (new 2) { last_toggle = some 1000 })
    ≡ record (new 2) { last_toggle = some 1500 }
unfolding parse_session_mode
toggle_all-IsBurst_example =
    toggle_all-IsBurst config 1000 repeats (record (new 2) { last_toggle = some 1000 }) refl
      (omega arith, refl, (omega arith, refl, (omega arith, refl, tt)))

-- Two utterances whose transcripts are still to come, the first awaited.
abbrev unanswered : List (Env × Call)
unanswered =
    (env 1000, toggles (codes "type"))
    ∷ (env 1100, utters (1 ∷ []))
    ∷ (env 1200, worker_takes)
    ∷ (env 1300, utters (2 ∷ []))
    ∷ []

abbrev late : ℕ → Env × Reply
late t = (env 2000, text (codes "late"))

run-settles_example : IsSettled (
    run config ascii
      (λ t. t)
      (settle late env (run config ascii (λ t. t) unanswered (new 2)))
      (run config ascii (λ t. t) unanswered (new 2)))
run-settles_example = run-settles config ascii (λ t. t) late env 2 unanswered
