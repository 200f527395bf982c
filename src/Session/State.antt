-- ===== src/Session/State.antt =====
-- cmd/dictad/session.go: the session's fields, and what its collaborators answer and are told.
use dicta.Base.{
  ℕ, ◌^◌, ◌+◌, ◌%◌, Bool, true, false, List, [], ◌∷◌, Option, none, some, Text, ◌==◌, if◌then◌else◌,
}
use dicta.AsrMonitor.{AsrMonitor}
use dicta.AsrMonitor

pub data Mode : Type 0 where
  mode_none mode_type mode_clip : Mode

abbrev pub mode_eq : Mode → Mode → Bool
mode_eq mode_none mode_none = true
mode_eq mode_type mode_type = true
mode_eq mode_clip mode_clip = true
mode_eq _ _ = false

pub data Error : Type 0 where
  unknown_mode clip_not_configured commit_only_valid_in_clip_mode : Error
  cancel_only_valid_in_clip_mode audio_capture preview_spawn clipper : Error

-- The optional collaborators that are set, and the two durations in nanoseconds.
pub record Config : Type 0 where
  pub has_clipper : Bool
  pub has_preview : Bool
  pub has_cuer : Bool
  pub has_bus : Bool
  pub has_vad_reset : Bool
  pub has_flush : Bool
  pub has_lifecycle : Bool
  pub toggle_debounce : ℕ
  pub idle_timeout : ℕ

-- What the clock and the collaborators answer during one call. `flushed` is the utterance that the
-- audio loop still holds when it is flushed; `clean` is the cleanup endpoint, `none` on an error.
-- The stop of capture and the kill of the panel always return nil; the error of a cue or of the
-- audit writer is only logged.
pub record Env : Type 0 where
  pub now : ℕ
  pub start_fails : Bool
  pub spawn_fails : Bool
  pub clip_fails : Bool
  pub type_fails : Bool
  pub flushed : Option (List ℕ)
  pub clean : Text → Option Text

-- The calls that the session makes.
pub data Effect : Type 0 where
  vad_reset start_capture stop_capture spawn_panel kill_panel flush_audio : Effect
  cue_open cue_close : Effect
  session_state : Mode → Bool → Effect
  clip transcript : Text → Effect
  audit : Mode → Text → Text → Effect

-- `typeJob`: its `text` and `ready` are in `resolved` of the session, since two goroutines share
-- the job.
pub record TypeJob : Type 0 where
  pub id : ℕ
  pub epoch : ℕ

-- The variables that the callbacks of one utterance capture.
pub record Submission : Type 0 where
  pub mode : Mode
  pub epoch : ℕ
  pub job : Option ℕ

-- `deadline` is `none` once the timer has fired.
pub record IdleTimer : Type 0 where
  pub for_epoch : ℕ
  pub deadline : Option ℕ

-- The epoch of the session that armed the timer.
abbrev pub armed : Option IdleTimer → Option ℕ
armed none = none
armed (some t) = some t.for_epoch

-- One call of the typer that succeeded.
pub record Typed : Type 0 where
  pub id : ℕ
  pub epoch : ℕ
  pub text : Text

pub record Session : Type 0 where
  pub mode : Mode
  pub open_state : Bool
  pub epoch : ℕ  -- uint64
  pub last_toggle : Option ℕ
  pub idle_timer : Option IdleTimer
  -- The channel of type jobs, oldest first, and the ids of jobs whose `ready` is closed.
  pub type_queue : List TypeJob
  pub queue_closed : Bool
  pub resolved : List (ℕ × Text)
  pub next_id : ℕ
  -- The variables of the worker; `current` is the job whose readiness it awaits.
  pub current : Option TypeJob
  pub initialized : Bool
  pub current_epoch : ℕ
  pub typed_in_epoch : ℕ  -- uint64, one for each typed utterance
  pub asr : AsrMonitor Submission
  -- What the collaborators hold: whether capture runs, whether the panel runs.
  pub capturing : Bool
  pub panel : Bool
  -- Newest first: what was typed, and the other calls.
  pub typed : List Typed
  pub trace : List Effect
  -- A channel closed twice, or sent to after its close.
  pub panicked : Bool

abbrev pub queue_capacity : ℕ
queue_capacity = 8

unfoldable pub new : ℕ → Session
new max_concurrent = record {
  mode = mode_none;
  open_state = false;
  epoch = 0;
  last_toggle = none;
  idle_timer = none;
  type_queue = [];
  queue_closed = false;
  resolved = [];
  next_id = 0;
  current = none;
  initialized = false;
  current_epoch = 0;
  typed_in_epoch = 0;
  asr = AsrMonitor.new max_concurrent;
  capturing = false;
  panel = false;
  typed = [];
  trace = [];
  panicked = false;
}

abbrev pub emit : Effect → Session → Session
emit f s = record s { trace = f ∷ s.trace }

abbrev pub emit_if : Bool → Effect → Session → Session
emit_if b f s = record s { trace = if b then f ∷ s.trace else s.trace }

abbrev pub bump_epoch : ℕ → ℕ
bump_epoch n = (n + 1) % 2 ^ 64

abbrev pub lookup : ℕ → List (ℕ × Text) → Option Text
lookup k [] = none
lookup k ((j, t) ∷ m) = if j == k then some t else lookup k m
